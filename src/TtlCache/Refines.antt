-- ===== src/TtlCache/Refines.antt =====
-- Every call on a coherent shard (internal/ttlcache/ttlcache.go) keeps it coherent and does what the
-- ideal cache does.
use voting_service.Base.{
  ℕ, zero, suc, ◌+◌, ◌-◌, ◌≤◌, ◌<◌, String, ◌≡◌, refl, ◌∙◌, ap, sym, inl, inr, none, some, List, [],
  ◌∷◌, length, arith, if◌then◌else◌, str_eq, str_eq_iff, str_eq_refl, lookup, Bool-cases,
  Option-cases, take, lookup-erase, lookup-insert, ltb, leb,
}
use voting_service.Base.Int.{ℤ, pos, negsuc}
use voting_service.TtlCache.Shard.{
  Item, Shard, find, remove, remove_locked, get, set, set_until, make_room, push_front, delete,
  new_shard,
}
use voting_service.TtlCache.Ideal.{entry, without, read, write}
use voting_service.TtlCache.Coherent.{
  IsCoherent, items, handle, find-handle, entry_of_no_handle, items-remove, IsListing-remove,
  find-remove_self, handle-remove, length-remove, find-lt, handle_of_find, find_next,
  IsListing-mono, back-remove, items-take, handle-remove-none,
}

module _ {ℓ} {V : Type ℓ} where
  -- An element of a coherent shard is removed: the shard stays coherent.
  pub remove_locked-IsCoherent :
      (e : ℕ) (i : Item V) (s : Shard V)
      → IsCoherent s
      → find e s.order ≡ some i
      → IsCoherent (remove_locked e i s)
  unfolding remove_locked
  remove_locked-IsCoherent e i s c found = record {
    positive = c.positive;
    bounded = omega (arith, length-remove e i s.order found);
    listing = IsListing-remove s.next e s.order c.listing;
    indexed = λ k.
        lookup-erase i.key k s.entries
        ∙ ap (λ o. if str_eq i.key k then none else o) (c.indexed k)
        ∙ sym (handle-remove k s.next e i s.order c.listing found);
  }

  -- A hit moves its element, perhaps with a new value, to the front.
  pub move_to_front-IsCoherent :
      (e : ℕ) (i j : Item V) (s : Shard V)
      → IsCoherent s
      → find e s.order ≡ some i
      → j.key ≡ i.key
      → IsCoherent (record s { order = (e, j) ∷ remove e s.order })
  unfolding handle
  move_to_front-IsCoherent e i j s c found same = record {
    positive = c.positive;
    bounded = omega (arith, length-remove e i s.order found, c.bounded);
    listing = (
      find-lt e s.next i s.order c.listing found,
      find-remove_self s.next e s.order c.listing,
      handle-remove j.key s.next e i s.order c.listing found ∙ rw (same, str_eq_refl),
      IsListing-remove s.next e s.order c.listing,
    );
    indexed = λ k. ground (
      arith,
      c.indexed k,
      handle-remove k s.next e i s.order c.listing found,
      handle_of_find s.next e i s.order c.listing found,
      str_eq_iff i.key k,
    );
  }

  -- A new entry at the front of a shard with room.
  push_front-IsCoherent :
      (i : Item V) (s : Shard V)
      → IsCoherent s
      → handle i.key s.order ≡ none
      → length s.order < s.capacity
      → IsCoherent (push_front i s)
  unfolding push_front handle
  push_front-IsCoherent i s c absent room = record {
    positive = c.positive;
    bounded = room;
    listing = (
      omega arith,
      find_next s.next s.next s.order c.listing (omega arith),
      absent,
      IsListing-mono s.next s.order c.listing,
    );
    indexed = λ k.
        lookup-insert i.key k s.next s.entries
        ∙ ap (λ o. if str_eq i.key k then some s.next else o) (c.indexed k);
  }

  -- `Get` on a coherent shard keeps it coherent, and returns and leaves what the ideal cache does.
  pub get-read :
      (now : ℕ) (k : String) (s : Shard V)
      → IsCoherent s
      → IsCoherent (get now k s).1
        × ((get now k s).0 ≡ (read now k (items s.order)).0)
        × (items (get now k s).1.order ≡ (read now k (items s.order)).1)
  unfolding get read remove_locked
  get-read now k s c = elim (Option-cases (handle k s.order)) [
    | inl absent ↦
        rw (c.indexed k, absent, entry_of_no_handle k s.order absent, get, read) (c, refl, refl)
    | inr (e, held) ↦
        let (i, found, at_key, entered, allocated) =
          find-handle k e s.next s.order c.listing held in
        let moved = items-remove k e s.next s.order c.listing held in
        elim (Bool-cases (ltb i.expires_at now)) [
          | inl stale ↦
              rw (c.indexed k, held, found, entered, stale, get, read)
                (remove_locked-IsCoherent e i s c found, refl, moved)
          | inr live ↦
              rw (c.indexed k, held, found, entered, live, get, read)
                (move_to_front-IsCoherent e i i s c found refl, refl, ap (◌∷◌ i) moved)
        ]
  ]

  without_absent : (k : String) (l : List (Item V)) → entry k l ≡ none → without k l ≡ l
  unfolding entry without
  without_absent k [] h = refl
  without_absent k (i ∷ l) h = ground (arith, without_absent k l)

  -- `Delete` on a coherent shard keeps it coherent and drops the entry of the key.
  pub delete-without :
      (k : String) (s : Shard V)
      → IsCoherent s
      → IsCoherent (delete k s) × (items (delete k s).order ≡ without k (items s.order))
  unfolding delete remove_locked
  delete-without k s c = elim (Option-cases (handle k s.order)) [
    | inl absent ↦
        rw (c.indexed k, absent, delete)
          (c, sym (without_absent k (items s.order) (entry_of_no_handle k s.order absent)))
    | inr (e, held) ↦
        let (i, found, at_key, entered, allocated) =
          find-handle k e s.next s.order c.listing held in
        rw (c.indexed k, held, found, delete)
          (remove_locked-IsCoherent e i s c found, items-remove k e s.next s.order c.listing held)
  ]

  items_short : (m : ℕ) (l : List (ℕ × Item V)) → length l ≤ m → items l ≡ take m (items l)
  items_short zero [] h = refl
  items_short zero (x ∷ l) h = absurd (omega arith)
  items_short (suc m) [] h = refl
  items_short (suc m) (x ∷ l) h = ap (◌∷◌ x.1) (items_short m l (omega arith))

  -- What `make_room` does when the key is not stored: the shard has room for one more, and keeps the
  -- most recent entries.
  make_room-take :
      (k : String) (m : ℕ) (s : Shard V)
      → IsCoherent s
      → s.capacity ≡ suc m
      → handle k s.order ≡ none
      → IsCoherent (make_room s)
        × (length (make_room s).order < (make_room s).capacity)
        × (handle k (make_room s).order ≡ none)
        × (items (make_room s).order ≡ take m (items s.order))
  unfolding make_room remove_locked
  make_room-take k m s c full absent = elim (Bool-cases (leb s.capacity (length s.order))) [
    | inr room ↦ rw room (c, ground arith, absent, items_short m s.order (ground arith))
    | inl over ↦
        let (e, i, last, found, taken) =
          back-remove s.next m s.order c.listing (ground (arith, c.bounded)) in
        rw (over, last)
          (
            remove_locked-IsCoherent e i s c found,
            omega (arith, length-remove e i s.order found, c.bounded),
            handle-remove-none k e s.order absent,
            ap items taken ∙ items-take m s.order,
          )
  ]

  set_until-write :
      (expires : ℕ) (k : String) (v : V) (m : ℕ) (s : Shard V)
      → IsCoherent s
      → s.capacity ≡ suc m
      → IsCoherent (set_until expires k v s)
        × (items (set_until expires k v s).order
            ≡ record { key = k; value = v; expires_at = expires }
              ∷ take m (without k (items s.order)))
  unfolding set_until push_front
  set_until-write expires k v m s c full = elim (Option-cases (handle k s.order)) [
    | inl absent ↦
        let (c', room, absent', taken) = make_room-take k m s c full absent in
        rw (c.indexed k, absent, set_until)
          (
            push_front-IsCoherent new (make_room s) c' absent' room,
            ap (◌∷◌ new) (
                taken
                ∙ ap (take m)
                    (sym (without_absent k (items s.order) (entry_of_no_handle k s.order absent)))),
          )
    | inr (e, held) ↦
        let (i, found, at_key, entered, allocated) =
          find-handle k e s.next s.order c.listing held in
        rw (c.indexed k, held, found, set_until)
          (
            move_to_front-IsCoherent e i (record i { value = v; expires_at = expires }) s c found
                refl,
            ap (λ q. record { key = q; value = v; expires_at = expires } ∷ items (remove e s.order))
                  at_key
                ∙ ap (◌∷◌ new) (
                    items_short m (remove e s.order)
                      (omega (arith, length-remove e i s.order found, c.bounded))
                    ∙ ap (take m) (items-remove k e s.next s.order c.listing held)),
          )
  ]
    where
      new : Item V
      new = record { key = k; value = v; expires_at = expires }

  pub write_first :
      (cap now m : ℕ) (k : String) (v : V) (n : ℕ) (l : List (Item V))
      → cap ≡ suc m
      → write cap now k v (pos (suc n)) l
        ≡ record { key = k; value = v; expires_at = now + suc n } ∷ take m (without k l)
  unfolding write
  write_first cap now m k v n l full = rw full

  -- `Set` on a coherent shard keeps it coherent and does what the ideal cache does: at a lifetime of
  -- zero or less nothing changes, otherwise the new entry is the first and the most recent ones stay.
  pub set-write :
      (now : ℕ) (k : String) (v : V) (ttl : ℤ) (s : Shard V)
      → IsCoherent s
      → IsCoherent (set now k v ttl s)
        × (items (set now k v ttl s).order ≡ write s.capacity now k v ttl (items s.order))
  unfolding set write
  set-write now k v (negsuc n) s c = (c, refl)
  set-write now k v (pos zero) s c = (c, refl)
  set-write now k v (pos (suc n)) s c =
      let m = s.capacity - 1 in
      let full : s.capacity ≡ suc m = omega (arith, c.positive) in
      let (c', written) = set_until-write (now + suc n) k v m s c full in
      (c', written ∙ sym (write_first s.capacity now m k v n (items s.order) full))

  -- A new shard is coherent and empty.
  pub new_shard-IsCoherent : (n : ℕ) → 0 < n → IsCoherent (new_shard {V = V} n)
  unfolding new_shard lookup handle
  new_shard-IsCoherent n h = record {
    positive = h;
    bounded = omega arith;
    listing = tt;
    indexed = λ k. refl;
  }
