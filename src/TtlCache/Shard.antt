-- ===== src/TtlCache/Shard.antt =====
-- One shard of the cache (internal/ttlcache/ttlcache.go). A `*list.Element` is a number, its handle;
-- `order` lists the elements, most recently used first, and `entries` maps keys to handles.
use voting_service.Base.{
  ℕ, zero, suc, ◌+◌, String, Option, none, some, List, [], ◌∷◌, length, ltb, leb, ◌==◌,
  if◌then◌else◌, lookup, insert, erase,
}
use voting_service.Base.Int.{ℤ, pos, negsuc}

pub record Item {ℓ} (V : Type ℓ) : Type ℓ where
  pub key : String
  pub value : V
  pub expires_at : ℕ

-- `next` is the handle of the next allocated element; the mutex is the exclusion of two calls.
pub record Shard {ℓ} (V : Type ℓ) : Type ℓ where
  pub capacity : ℕ
  pub entries : List (String × ℕ)
  pub order : List (ℕ × Item V)
  pub next : ℕ

module _ {ℓ} {V : Type ℓ} where
  -- `element.Value`, for an element of the list.
  unfoldable pub find : ℕ → List (ℕ × Item V) → Option (Item V)
  find e [] = none
  find e ((d, item) ∷ l) = if d == e then some item else find e l

  -- `order.Remove(element)`.
  unfoldable pub remove : ℕ → List (ℕ × Item V) → List (ℕ × Item V)
  remove e [] = []
  remove e ((d, item) ∷ l) = if d == e then l else (d, item) ∷ remove e l

  -- `order.Back()`.
  unfoldable pub back : List (ℕ × Item V) → Option (ℕ × Item V)
  back [] = none
  back (x ∷ []) = some x
  back (x ∷ y ∷ l) = back (y ∷ l)

  unfoldable pub new_shard : ℕ → Shard V
  new_shard capacity = record { capacity = capacity; entries = []; order = []; next = 0 }

  -- `removeLocked`.
  unfoldable pub remove_locked : ℕ → Item V → Shard V → Shard V
  remove_locked e item s = record s { order = remove e s.order; entries = erase item.key s.entries }

  -- `TTL.Get` on the shard of the key, at the time `now`.
  unfoldable pub get : ℕ → String → Shard V → Option V × Shard V
  get now key s = elim (lookup key s.entries) [
    | none ↦ (none, s)
    | some e ↦ elim (find e s.order) [
      | none ↦ (none, s)
      | some item ↦
          if ltb item.expires_at now
          then (none, remove_locked e item s)
          else (some item.value, record s { order = (e, item) ∷ remove e s.order })
    ]
  ]

  -- The eviction of `TTL.Set`: the last element, if the shard is full.
  unfoldable pub make_room : Shard V → Shard V
  make_room s =
      if leb s.capacity (length s.order)
      then elim (back s.order) [ none ↦ s | some (e, item) ↦ remove_locked e item s ]
      else s

  -- `s.entries[key] = s.order.PushFront(…)`.
  unfoldable pub push_front : Item V → Shard V → Shard V
  push_front item s = record s {
    order = (s.next, item) ∷ s.order;
    entries = insert item.key s.next s.entries;
    next = suc s.next;
  }

  -- `TTL.Set` past its check of the lifetime.
  unfoldable pub set_until : ℕ → String → V → Shard V → Shard V
  set_until expires key value s = elim (lookup key s.entries) [
    | none ↦ push_front (record { key = key; value = value; expires_at = expires }) (make_room s)
    | some e ↦ elim (find e s.order) [
      | none ↦ s
      | some item ↦ record s {
        order = (e, record item { value = value; expires_at = expires }) ∷ remove e s.order;
      }
    ]
  ]

  -- `TTL.Set` on the shard of the key: a lifetime of zero or less stores nothing.
  unfoldable pub set : ℕ → String → V → ℤ → Shard V → Shard V
  set now key value (negsuc n) s = s
  set now key value (pos zero) s = s
  set now key value (pos (suc n)) s = set_until (now + suc n) key value s

  -- `TTL.Delete` on the shard of the key.
  unfoldable pub delete : String → Shard V → Shard V
  delete key s = elim (lookup key s.entries) [
    | none ↦ s
    | some e ↦ elim (find e s.order) [ none ↦ s | some item ↦ remove_locked e item s ]
  ]
