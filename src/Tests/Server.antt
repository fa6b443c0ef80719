-- ===== src/Tests/Server.antt =====
-- A Redis server for the examples: it keeps what it is given, and no key expires.
use voting_service.Base.{
  ℕ, suc, ◌<◌, ◌^◌, sym, str_eq_refl, String, true, false, not, ◌&&◌, ◌||◌, ◌≡◌, refl, List, [],
  ◌∷◌, none, some, ltb, ◌==◌, arith, if◌then◌else◌, str_eq, str_eq_iff, contains, Bool-cases, inl,
  inr,
}
use voting_service.Redis.{Redis, RedisLaws}
use voting_service.Tests.Hash.{
  Hash, Sound, value, raise_field, texts, raise_field-Sound, raise_field-value, texts-IsReply,
  texts-value,
}

pub record Keys : Type 0 where
  pub numbers : String → ℕ
  pub present : List String
  pub hashes : String → (h : Hash) × Sound h
  pub members : String → List String

abbrev pub empty_keys : Keys
empty_keys = record { numbers = λ _. 0; present = []; hashes = λ _. ([], tt); members = λ _. [] }

abbrev set_at {ℓ} : {A : Type ℓ} → String → A → (String → A) → String → A
set_at k a f j = if str_eq k j then a else f j

abbrev pub drop_member : String → List String → List String
drop_member x [] = []
drop_member x (y ∷ l) = let rest = drop_member x l in if str_eq x y then rest else y ∷ rest

abbrev pub server : Redis
server = record {
  Db = Keys;
  incr = λ k db. (
    suc (db.numbers k),
    record {
      numbers = set_at k (suc (db.numbers k)) db.numbers;
      present = k ∷ db.present;
      hashes = db.hashes;
      members = db.members;
    },
  );
  expire = λ k t db. db;
  set_nx = λ k v t db.
      if t == 0 then (none, db) else if contains k db.present then (some false, db) else (
        some true,
        record {
          numbers = db.numbers;
          present = k ∷ db.present;
          hashes = db.hashes;
          members = db.members;
        },
      );
  exists = λ k db. contains k db.present;
  hincrby = λ k f db.
      if ltb (suc (value f (db.hashes k).0)) (2 ^ 63)
      then (
        true,
        record {
          numbers = db.numbers;
          present = k ∷ db.present;
          hashes =
              set_at k
                (raise_field f (db.hashes k).0, raise_field-Sound f (db.hashes k).0 (db.hashes k).1)
                db.hashes;
          members = db.members;
        },
      )
      else (false, db);
  hgetall = λ k db. texts (db.hashes k).0;
  sadd = λ k x db. record {
    numbers = db.numbers;
    present = db.present;
    hashes = db.hashes;
    members = set_at k (x ∷ db.members k) db.members;
  };
  srem = λ k x db. record {
    numbers = db.numbers;
    present = db.present;
    hashes = db.hashes;
    members = set_at k (drop_member x (db.members k)) db.members;
  };
  smembers = λ k db. db.members k;
  number = λ db k. db.numbers k;
  field = λ db k f. value f (db.hashes k).0;
}

pub contains-drop_member :
    (x y : String) (l : List String)
    → contains y (drop_member x l) ≡ (not (str_eq x y) && contains y l)
unfolding contains
contains-drop_member x y [] = ground arith
contains-drop_member x y (z ∷ l) =
    ground (arith, contains-drop_member x y l, str_eq_iff x z, str_eq_iff y z, str_eq_iff x y)

contains_add : (k j : String) (l : List String) → contains j (k ∷ l) ≡ (str_eq k j || contains j l)
unfolding contains
contains_add k j l = ground (arith, str_eq_iff k j, str_eq_iff j k)

contains_present :
    (k j : String) (l : List String)
    → contains k l ≡ true
    → contains j l ≡ (str_eq k j || contains j l)
contains_present k j l h = elim (Bool-cases (str_eq k j)) [
  | inl same ↦ rw (same, sym ((str_eq_iff k j).0 same)) h
  | inr other ↦ rw other refl
]

lasting : (t : ℕ) → 0 < t → (t == 0) ≡ false
lasting t h = ground (arith, h)

set_nx_exists_lem :
    (k v j : String) (t : ℕ) (db : Keys)
    → 0 < t
    → server.exists j (server.set_nx k v t db).1 ≡ (str_eq k j || server.exists j db)
set_nx_exists_lem k v j t db h = elim (Bool-cases (contains k db.present)) [
  | inl held ↦ rw (lasting t h) (rw held (contains_present k j db.present held))
  | inr free ↦ rw (lasting t h) (rw free (contains_add k j db.present))
]

set_nx_field_lem :
    (k v j f : String) (t : ℕ) (db : Keys)
    → server.field (server.set_nx k v t db).1 j f ≡ server.field db j f
set_nx_field_lem k v j f t db = elim (Bool-cases (t == 0)) [
  | inl e ↦ rw e refl
  | inr d ↦ elim (Bool-cases (contains k db.present)) [
    | inl held ↦ rw (d, held) refl
    | inr free ↦ rw (d, free) refl
  ]
]

set_nx_refused_lem :
    (k v : String) (t : ℕ) (db : Keys) → server.exists k db ≡ true → (server.set_nx k v t db).1 ≡ db
set_nx_refused_lem k v t db h = elim (Bool-cases (t == 0)) [
  | inl e ↦ rw e refl
  | inr d ↦ rw (d, h) refl
]

hincrby_exists_lem :
    (k f j : String) (db : Keys)
    → (server.hincrby k f db).0 ≡ true
    → server.exists j (server.hincrby k f db).1 ≡ (str_eq k j || server.exists j db)
hincrby_exists_lem k f j db h = elim (Bool-cases (ltb (suc (value f (db.hashes k).0)) (2 ^ 63))) [
  | inl room ↦ rw room (contains_add k j db.present)
  | inr full ↦ absurd (cc (rw full at h))
]

hincrby_failed_lem :
    (k f : String) (db : Keys) → (server.hincrby k f db).0 ≡ false → (server.hincrby k f db).1 ≡ db
hincrby_failed_lem k f db h = elim (Bool-cases (ltb (suc (value f (db.hashes k).0)) (2 ^ 63))) [
  | inl room ↦ absurd (cc (rw room at h))
  | inr full ↦ rw full refl
]

below : {n : ℕ} → suc n < 2 ^ 63 → ltb (suc n) (2 ^ 63) ≡ true
below h = ground (arith, h)

hincrby_field_lem :
    (k f j g : String) (db : Keys)
    → suc (server.field db k f) < 2 ^ 63
    → server.field (server.hincrby k f db).1 j g
      ≡ (if str_eq k j && str_eq f g then suc (server.field db k f) else server.field db j g)
hincrby_field_lem k f j g db room = elim (Bool-cases (str_eq k j)) [
  | inl same ↦
      rw (below room)
        (rw (same, sym ((str_eq_iff k j).0 same)) (raise_field-value f g (db.hashes k).0 room))
  | inr other ↦ rw (below room) (rw other refl)
]

pub server-RedisLaws : RedisLaws server
server-RedisLaws = record {
  incr_reply = λ k db. refl;
  incr_number = λ k j db. refl;
  incr_field = λ k j f db. refl;
  expire_number = λ k j t db h. refl;
  expire_exists = λ k j t db h. refl;
  expire_field = λ k j f t db h. refl;
  set_nx_reply = λ k v t db h. ground (arith, h);
  set_nx_zero = λ k v db. refl;
  set_nx_exists = set_nx_exists_lem;
  set_nx_field = λ k v j f t db. set_nx_field_lem k v j f t db;
  set_nx_refused = set_nx_refused_lem;
  hincrby_reply = λ k f db h. rw (below h) refl;
  hincrby_failed = hincrby_failed_lem;
  hincrby_exists = hincrby_exists_lem;
  hincrby_field = hincrby_field_lem;
  hgetall_reply = λ k db. texts-IsReply (db.hashes k).0 (db.hashes k).1;
  hgetall_field = λ k f db. texts-value f (db.hashes k).0 (db.hashes k).1;
  sadd_member = λ k x y db. rw (str_eq_refl k) (contains_add x y (db.members k));
  srem_field = λ k x j f db. refl;
  srem_member = λ k x y db. rw (str_eq_refl k) (contains-drop_member x y (db.members k));
}
