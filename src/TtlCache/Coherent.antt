-- ===== src/TtlCache/Coherent.antt =====
-- The invariant of a shard (internal/ttlcache/ttlcache.go): the map and the list hold the same keys.
use voting_service.Base.{
  ℕ, zero, suc, ◌+◌, ◌≤◌, ◌<◌, String, ◌≡◌, refl, ap, inl, inr, Option, none, some, List, [], ◌∷◌,
  map, length, arith, ◌==◌, ==_iff, if◌then◌else◌, str_eq, str_eq_iff, lookup, Bool-cases, false,
  take,
}
use voting_service.TtlCache.Shard.{Item, Shard, find, remove, back}
use voting_service.TtlCache.Ideal.{entry, without}

module _ {ℓ} {V : Type ℓ} where
  -- The handle of the element that holds a key.
  unfoldable pub handle : String → List (ℕ × Item V) → Option ℕ
  handle k [] = none
  handle k ((e, i) ∷ l) = if str_eq i.key k then some e else handle k l

  -- Handles are allocated and distinct, and so are keys.
  abbrev pub IsListing : ℕ → List (ℕ × Item V) → Type ℓ
  IsListing n [] = Unit
  IsListing n ((e, i) ∷ l) = (e < n) × (find e l ≡ none) × (handle i.key l ≡ none) × IsListing n l

  -- The entries that the list stands for.
  abbrev pub items : List (ℕ × Item V) → List (Item V)
  items = map (λ x. x.1)

  pub record IsCoherent (s : Shard V) : Type ℓ where
    pub positive : 0 < s.capacity
    pub bounded : length s.order ≤ s.capacity
    pub listing : IsListing s.next s.order
    pub indexed : (k : String) → lookup k s.entries ≡ handle k s.order

  find-ne :
      (d e : ℕ) (j : Item V) (l : List (ℕ × Item V))
      → find d l ≡ none
      → find e l ≡ some j
      → (d == e) ≡ false
  find-ne d e j l absent found = elim (Bool-cases (d == e)) [
    | inl same ↦ cc (ap (λ k. find k l) ((==_iff d e).0 same))
    | inr other ↦ other
  ]

  find-cons_ne :
      (d e : ℕ) (i j : Item V) (l : List (ℕ × Item V))
      → find d l ≡ none
      → find e l ≡ some j
      → find e ((d, i) ∷ l) ≡ some j
  unfolding find
  find-cons_ne d e i j l absent found = rw (find-ne d e j l absent found) found

  -- A handle found by its key leads to the entry of that key.
  pub find-handle :
      (k : String) (e n : ℕ) (l : List (ℕ × Item V))
      → IsListing n l
      → handle k l ≡ some e
      → (i : Item V) × (find e l ≡ some i) × (i.key ≡ k) × (entry k (items l) ≡ some i) × (e < n)
  unfolding find handle entry
  find-handle k e n [] w h = cc
  find-handle k e n ((d, i) ∷ l) w h = elim (Bool-cases (str_eq i.key k)) [
    | inl same ↦ (i, ground arith, (str_eq_iff i.key k).0 same, ground arith, ground arith)
    | inr other ↦
        let (j, found, at_key, entered, allocated) = find-handle k e n l w.3 (ground arith) in
        (j, find-cons_ne d e i j l w.1 found, at_key, ground arith, allocated)
  ]

  pub entry_of_no_handle :
      (k : String) (l : List (ℕ × Item V)) → handle k l ≡ none → entry k (items l) ≡ none
  unfolding handle entry
  entry_of_no_handle k [] h = refl
  entry_of_no_handle k ((d, i) ∷ l) h = ground (arith, entry_of_no_handle k l)

  -- To remove the element is to remove the entry.
  pub items-remove :
      (k : String) (e n : ℕ) (l : List (ℕ × Item V))
      → IsListing n l
      → handle k l ≡ some e
      → items (remove e l) ≡ without k (items l)
  unfolding find handle remove without
  items-remove k e n [] w h = cc
  items-remove k e n ((d, i) ∷ l) w h = elim (Bool-cases (str_eq i.key k)) [
    | inl same ↦ ground arith
    | inr other ↦
        let (j, found, at_key, entered, allocated) = find-handle k e n l w.3 (ground arith) in
        rw (other, find-ne d e j l w.1 found) (ap (◌∷◌ i) (items-remove k e n l w.3 (ground arith)))
  ]

  pub find-remove-none :
      (e d : ℕ) (l : List (ℕ × Item V)) → find e l ≡ none → find e (remove d l) ≡ none
  unfolding find remove
  find-remove-none e d [] h = refl
  find-remove-none e d ((c, i) ∷ l) h = ground (arith, find-remove-none e d l)

  pub handle-remove-none :
      (k : String) (d : ℕ) (l : List (ℕ × Item V))
      → handle k l ≡ none
      → handle k (remove d l) ≡ none
  unfolding handle remove
  handle-remove-none k d [] h = refl
  handle-remove-none k d ((c, i) ∷ l) h = ground (arith, handle-remove-none k d l)

  pub IsListing-remove :
      (n e : ℕ) (l : List (ℕ × Item V)) → IsListing n l → IsListing n (remove e l)
  unfolding remove
  IsListing-remove n e [] w = tt
  IsListing-remove n e ((d, i) ∷ l) w = ground (
    arith,
    IsListing-remove n e l w.3,
    find-remove-none d e l w.1,
    handle-remove-none i.key e l w.2,
  )

  -- The removed element is gone from the list.
  pub find-remove_self :
      (n e : ℕ) (l : List (ℕ × Item V)) → IsListing n l → find e (remove e l) ≡ none
  unfolding find remove
  find-remove_self n e [] w = refl
  find-remove_self n e ((d, i) ∷ l) w = ground (arith, find-remove_self n e l w.3)

  pub handle_of_find :
      (n e : ℕ) (i : Item V) (l : List (ℕ × Item V))
      → IsListing n l
      → find e l ≡ some i
      → handle i.key l ≡ some e
  unfolding find handle
  handle_of_find n e i [] w h = cc
  handle_of_find n e i ((d, j) ∷ l) w h =
      ground (arith, handle_of_find n e i l w.3, str_eq_iff j.key i.key)

  -- After the removal of an element only its key is gone.
  pub handle-remove :
      (k : String) (n e : ℕ) (i : Item V) (l : List (ℕ × Item V))
      → IsListing n l
      → find e l ≡ some i
      → handle k (remove e l) ≡ (if str_eq i.key k then none else handle k l)
  unfolding find handle remove
  handle-remove k n e i [] w h = cc
  handle-remove k n e i ((d, j) ∷ l) w h = ground (
    arith,
    handle-remove k n e i l w.3,
    str_eq_iff i.key k,
    str_eq_iff j.key k,
    str_eq_iff j.key i.key,
    handle_of_find n e i l w.3,
  )

  pub length-remove :
      (e : ℕ) (i : Item V) (l : List (ℕ × Item V))
      → find e l ≡ some i
      → length (remove e l) + 1 ≡ length l
  unfolding find remove
  length-remove e i [] h = cc
  length-remove e i ((d, j) ∷ l) h = ground (arith, length-remove e i l)

  pub find-lt :
      (e n : ℕ) (i : Item V) (l : List (ℕ × Item V)) → IsListing n l → find e l ≡ some i → e < n
  unfolding find
  find-lt e n i [] w h = cc
  find-lt e n i ((d, j) ∷ l) w h = elim (Bool-cases (d == e)) [
    | inl same ↦ rw ((==_iff d e).0 same) at w.0
    | inr other ↦ find-lt e n i l w.3 (ground arith)
  ]

  pub IsListing-mono : (n : ℕ) (l : List (ℕ × Item V)) → IsListing n l → IsListing (suc n) l
  IsListing-mono n [] w = tt
  IsListing-mono n ((e, i) ∷ l) w = (omega arith, w.1, w.2, IsListing-mono n l w.3)

  -- The next handle is not in use.
  pub find_next : (e n : ℕ) (l : List (ℕ × Item V)) → IsListing n l → n ≤ e → find e l ≡ none
  unfolding find
  find_next e n [] w h = refl
  find_next e n ((d, i) ∷ l) w h = ground (arith, find_next e n l w.3)

  -- The last element is in the list, and without it the list is a prefix.
  pub back-remove :
      (n m : ℕ) (l : List (ℕ × Item V))
      → IsListing n l
      → length l ≡ suc m
      → (e : ℕ) × (i : Item V) × (back l ≡ some (e, i))
        × (find e l ≡ some i)
        × (remove e l ≡ take m l)
  unfolding find back remove
  back-remove n m [] w h = absurd (omega arith)
  back-remove n zero ((d, i) ∷ []) w h = (d, i, refl, ground arith, ground arith)
  back-remove n (suc m) ((d, i) ∷ []) w h = absurd (omega arith)
  back-remove n zero ((d, i) ∷ y ∷ l) w h = absurd (omega arith)
  back-remove n (suc m) ((d, i) ∷ y ∷ l) w h =
      let (e, j, last, found, taken) = back-remove n m (y ∷ l) w.3 (omega arith) in
      (
        e,
        j,
        last,
        find-cons_ne d e i j (y ∷ l) w.1 found,
        rw (find-ne d e j (y ∷ l) w.1 found) (ap (◌∷◌ (d, i)) taken),
      )

  pub items-take : (n : ℕ) (l : List (ℕ × Item V)) → items (take n l) ≡ take n (items l)
  items-take zero l = refl
  items-take (suc n) [] = refl
  items-take (suc n) (x ∷ l) = ap (◌∷◌ x.1) (items-take n l)
