-- ===== src/TtlCache/Bounds.antt =====
-- The cache over its life (internal/ttlcache/ttlcache.go): its size, and what a read returns after a
-- write.
use voting_service.Base.{
  ℕ, zero, suc, ◌+◌, ◌*◌, ◌≤◌, ◌<◌, String, ◌≡◌, refl, none, some, List, [], ◌∷◌, length, arith,
  ltb, ◌==◌, ==_iff, if◌then◌else◌, Bool-cases, inl, inr, ◌∙◌, ap, str_eq_refl, ◌-◌,
}
use voting_service.Base.Int.{ℤ, pos}
use voting_service.TtlCache.Shard
use voting_service.TtlCache.Shard.{
  Item, Shard, new_shard, remove_locked, make_room, push_front, set_until,
}
use voting_service.TtlCache.Ideal.{read, entry, without}
use voting_service.TtlCache.Coherent.{IsCoherent, items}
use voting_service.TtlCache.Refines.{
  get-read, set-write, delete-without, new_shard-IsCoherent, write_first,
}
use voting_service.TtlCache.Sharded
use voting_service.TtlCache.Sharded.{Ttl, shard_count, per_shard, new_ttl, put_shard, shard_for}

pub data Call {ℓ} (V : Type ℓ) : Type ℓ where
  get : ℕ → String → Call V
  set : ℕ → String → V → ℤ → Call V
  delete : String → Call V

module _ {ℓ} {V : Type ℓ} where
  -- The entries held by the first `n` shards.
  abbrev pub held : ℕ → Ttl V → ℕ
  held zero c = 0
  held (suc n) c = length (c.shards n).order + held n c

  pub apply : (String → ℕ) → Call V → Ttl V → Ttl V
  apply hash (get now k) c = (Sharded.get hash now k c).1
  apply hash (set now k v ttl) c = Sharded.set hash now k v ttl c
  apply hash (delete k) c = Sharded.delete hash k c

  pub run : (String → ℕ) → List (Call V) → Ttl V → Ttl V
  run hash [] c = c
  run hash (call ∷ calls) c = run hash calls (apply hash call c)

  -- Every shard is coherent, with room for `n` entries.
  pub record IsSound (n : ℕ) (c : Ttl V) : Type ℓ where
    pub coherent : (i : ℕ) → IsCoherent (c.shards i)
    pub sized : (i : ℕ) → (c.shards i).capacity ≡ n

  get-capacity : (now : ℕ) (k : String) (s : Shard V) → (Shard.get now k s).1.capacity ≡ s.capacity
  unfolding Shard.get remove_locked
  get-capacity now k s = ground arith

  set-capacity :
      (now : ℕ) (k : String) (v : V) (ttl : ℤ) (s : Shard V)
      → (Shard.set now k v ttl s).capacity ≡ s.capacity
  unfolding Shard.set set_until push_front make_room remove_locked
  set-capacity now k v ttl s = ground arith

  delete-capacity : (k : String) (s : Shard V) → (Shard.delete k s).capacity ≡ s.capacity
  unfolding Shard.delete remove_locked
  delete-capacity k s = ground arith

  put_shard-IsSound :
      (n i : ℕ) (s : Shard V) (c : Ttl V)
      → IsSound n c
      → IsCoherent s
      → s.capacity ≡ n
      → IsSound n (put_shard i s c)
  put_shard-IsSound n i s c h coherent sized = record {
    coherent = λ j. elim (Bool-cases (i == j)) [
      | inl same ↦ rw same coherent
      | inr other ↦ rw other (h.coherent j)
    ];
    sized = λ j. elim (Bool-cases (i == j)) [
      | inl same ↦ rw same sized
      | inr other ↦ rw other (h.sized j)
    ];
  }

  pub apply-IsSound :
      (hash : String → ℕ) (n : ℕ) (call : Call V) (c : Ttl V)
      → IsSound n c
      → IsSound n (apply hash call c)
  unfolding apply Sharded.get Sharded.set Sharded.delete
  apply-IsSound hash n (get now k) c h =
      let s = c.shards (shard_for hash k) in
      put_shard-IsSound n (shard_for hash k) (Shard.get now k s).1 c h
        (get-read now k s (h.coherent _)).0 (get-capacity now k s ∙ h.sized _)
  apply-IsSound hash n (set now k v ttl) c h =
      let s = c.shards (shard_for hash k) in
      put_shard-IsSound n (shard_for hash k) (Shard.set now k v ttl s) c h
        (set-write now k v ttl s (h.coherent _)).0 (set-capacity now k v ttl s ∙ h.sized _)
  apply-IsSound hash n (delete k) c h =
      let s = c.shards (shard_for hash k) in
      put_shard-IsSound n (shard_for hash k) (Shard.delete k s) c h
        (delete-without k s (h.coherent _)).0 (delete-capacity k s ∙ h.sized _)

  pub run-IsSound :
      (hash : String → ℕ) (n : ℕ) (calls : List (Call V)) (c : Ttl V)
      → IsSound n c
      → IsSound n (run hash calls c)
  unfolding run
  run-IsSound hash n [] c h = h
  run-IsSound hash n (call ∷ calls) c h =
      run-IsSound hash n calls (apply hash call c) (apply-IsSound hash n call c h)

  pub new_ttl-IsSound : (capacity : ℕ) → IsSound (per_shard capacity) (new_ttl {V = V} capacity)
  unfolding new_ttl new_shard
  new_ttl-IsSound capacity = record {
    coherent = λ i. new_shard-IsCoherent (per_shard capacity) (ground arith);
    sized = λ i. refl;
  }

  held-le : (n k : ℕ) (c : Ttl V) → IsSound n c → held k c ≤ k * n
  held-le n zero c h = omega arith
  held-le n (suc k) c h =
      let full : length (c.shards k).order ≤ n = rw (h.sized k) at (h.coherent k).bounded in
      grind (arith, held-le n k c h)

  -- A cache made with a capacity of sixteen or more never holds more entries than its capacity,
  -- whatever calls are made on it.
  pub run-new_ttl_bounded :
      (hash : String → ℕ) (capacity : ℕ) (calls : List (Call V))
      → 16 ≤ capacity
      → held shard_count (run hash calls (new_ttl capacity)) ≤ capacity
  run-new_ttl_bounded hash capacity calls h =
      let fits : per_shard capacity * 16 ≤ capacity = ground arith in
      omega (
        arith,
        held-le (per_shard capacity) 16 (run hash calls (new_ttl capacity)) (
            run-IsSound hash (per_shard capacity) calls (new_ttl capacity)
              (new_ttl-IsSound capacity)),
      )

  read_first :
      (later : ℕ) (i : Item V) (l : List (Item V))
      → (read later i.key (i ∷ l)).0 ≡ (if ltb i.expires_at later then none else some i.value)
  unfolding read entry without
  read_first later i l =
      rw (str_eq_refl i.key, read)
        (elim (Bool-cases (ltb i.expires_at later)) [ inl stale ↦ rw stale | inr live ↦ rw live ])

  -- In a sound cache a value that was just written with a positive lifetime is read back until
  -- that lifetime is over, and not after that.
  pub get-set :
      (hash : String → ℕ) (n : ℕ) (c : Ttl V) (now later : ℕ) (k : String) (v : V) (ttl : ℕ)
      → IsSound n c
      → 0 < ttl
      → (Sharded.get hash later k (Sharded.set hash now k v (pos ttl) c)).0
        ≡ (if ltb (now + ttl) later then none else some v)
  unfolding Sharded.get Sharded.set
  get-set hash n c now later k v zero h p = absurd (omega arith)
  get-set hash n c now later k v (suc t) h p =
      let s = c.shards (shard_for hash k) in
      let full : s.capacity ≡ suc (s.capacity - 1) = omega (arith, (h.coherent _).positive) in
      let (kept, written) = set-write now k v (pos (suc t)) s (h.coherent _) in
      rw ((==_iff (shard_for hash k) (shard_for hash k)).1 refl) (
        (get-read later k (Shard.set now k v (pos (suc t)) s) kept).1
        ∙ ap (λ l. (read later k l).0)
            (written ∙ write_first s.capacity now (s.capacity - 1) k v t (items s.order) full)
        ∙ read_first later (record { key = k; value = v; expires_at = now + suc t }) _)
