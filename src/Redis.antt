-- ===== src/Redis.antt =====
-- The Redis server and its client, which the repository only calls: the commands in use are a
-- parameter of the model, with their documented behaviour as a record of laws. What a command does
-- is stated through views of the keyspace.
use voting_service.Base.{
  ℕ, suc, ◌<◌, ◌^◌, ◌≡◌, refl, ap, ◌∙◌, ◌⊎◌, inl, inr, String, Bool, true, false, not, ◌&&◌, ◌||◌,
  Option, none, some, List, [], ◌∷◌, map, if◌then◌else◌, str_eq, contains, parse_int,
}
use voting_service.Base.Int.{ℤ, pos, negsuc}
use voting_service.Entity.Errors.{Error, Result, ok, err, ok-injective}

-- A keyspace and the commands on it. `set_nx k v t` is `SET k v NX EX t`, which replies whether the
-- key was set, or with an error, `none`; `hincrby k f` is `HINCRBY k f 1`, which replies with an
-- error where it gives `false`.
pub record Redis : Type 1 where
  pub Db : Type 0
  pub incr : String → Db → ℕ × Db
  pub expire : String → ℕ → Db → Db
  pub set_nx : String → String → ℕ → Db → Option Bool × Db
  pub exists : String → Db → Bool
  pub hincrby : String → String → Db → Bool × Db
  pub hgetall : String → Db → List (String × String)
  pub sadd : String → String → Db → Db
  pub srem : String → String → Db → Db
  pub smembers : String → Db → List String
  -- Views: the integer at a key, 0 if there is none, and the integer at a field of a hash.
  pub number : Db → String → ℕ
  pub field : Db → String → String → ℕ

-- The number that a reply of `HGETALL` gives for a field.
abbrev pub raw_number : Option ℤ → ℕ
raw_number none = 0
raw_number (some (pos n)) = n
raw_number (some (negsuc n)) = 0

abbrev pub value_in : String → List (String × String) → ℕ
value_in f [] = 0
value_in f ((g, raw) ∷ r) = if str_eq g f then raw_number (parse_int raw) else value_in f r

-- A reply of `HGETALL`, for a hash that `HINCRBY` alone has written: every field once, with the
-- decimal text of an integer.
abbrev pub IsReply : List (String × String) → Type 0
IsReply [] = Unit
IsReply ((g, raw) ∷ r) =
    ((n : ℕ) × (parse_int raw ≡ some (pos n))) × (contains g (map (λ x. x.0) r) ≡ false) × IsReply r

-- The documented behaviour of the commands, for keys that are used with one type each. A lifetime
-- of one second or more leaves the value as it is, and `SET` refuses a lifetime of 0; `HINCRBY` adds
-- one below the end of 64 bits, and a command that replies with an error changes nothing.
pub record RedisLaws (r : Redis) : Type 0 where
  pub incr_reply : (k : String) (db : r.Db) → (r.incr k db).0 ≡ suc (r.number db k)
  pub incr_number :
      (k j : String) (db : r.Db)
      → r.number (r.incr k db).1 j ≡ (if str_eq k j then suc (r.number db k) else r.number db j)
  pub incr_field : (k j f : String) (db : r.Db) → r.field (r.incr k db).1 j f ≡ r.field db j f
  pub expire_number :
      (k j : String) (t : ℕ) (db : r.Db) → 0 < t → r.number (r.expire k t db) j ≡ r.number db j
  pub expire_exists :
      (k j : String) (t : ℕ) (db : r.Db) → 0 < t → r.exists j (r.expire k t db) ≡ r.exists j db
  pub expire_field :
      (k j f : String) (t : ℕ) (db : r.Db) → 0 < t → r.field (r.expire k t db) j f ≡ r.field db j f
  pub set_nx_reply :
      (k v : String) (t : ℕ) (db : r.Db)
      → 0 < t
      → (r.set_nx k v t db).0 ≡ some (not (r.exists k db))
  pub set_nx_zero : (k v : String) (db : r.Db) → r.set_nx k v 0 db ≡ (none, db)
  pub set_nx_exists :
      (k v j : String) (t : ℕ) (db : r.Db)
      → 0 < t
      → r.exists j (r.set_nx k v t db).1 ≡ (str_eq k j || r.exists j db)
  pub set_nx_field :
      (k v j f : String) (t : ℕ) (db : r.Db) → r.field (r.set_nx k v t db).1 j f ≡ r.field db j f
  pub set_nx_refused :
      (k v : String) (t : ℕ) (db : r.Db) → r.exists k db ≡ true → (r.set_nx k v t db).1 ≡ db
  pub hincrby_reply :
      (k f : String) (db : r.Db) → suc (r.field db k f) < 2 ^ 63 → (r.hincrby k f db).0 ≡ true
  pub hincrby_failed :
      (k f : String) (db : r.Db) → (r.hincrby k f db).0 ≡ false → (r.hincrby k f db).1 ≡ db
  pub hincrby_exists :
      (k f j : String) (db : r.Db)
      → (r.hincrby k f db).0 ≡ true
      → r.exists j (r.hincrby k f db).1 ≡ (str_eq k j || r.exists j db)
  pub hincrby_field :
      (k f j g : String) (db : r.Db)
      → suc (r.field db k f) < 2 ^ 63
      → r.field (r.hincrby k f db).1 j g
        ≡ (if str_eq k j && str_eq f g then suc (r.field db k f) else r.field db j g)
  pub hgetall_reply : (k : String) (db : r.Db) → IsReply (r.hgetall k db)
  pub hgetall_field : (k f : String) (db : r.Db) → value_in f (r.hgetall k db) ≡ r.field db k f
  pub sadd_member :
      (k x y : String) (db : r.Db)
      → contains y (r.smembers k (r.sadd k x db)) ≡ (str_eq x y || contains y (r.smembers k db))
  pub srem_member :
      (k x y : String) (db : r.Db)
      → contains y (r.smembers k (r.srem k x db))
        ≡ (not (str_eq x y) && contains y (r.smembers k db))
  pub srem_field : (k x j f : String) (db : r.Db) → r.field (r.srem k x db) j f ≡ r.field db j f

-- What happens to a round trip to the server: the reply arrives, or the request or the reply is
-- lost, and the client returns an error.
pub data Link : Type 0 where
  up : Link
  request_lost : Error → Link
  reply_lost : Error → Link

-- The server, and the round trips to come; past the end of the list all arrive.
pub record Net (r : Redis) : Type 0 where
  pub db : r.Db
  pub links : List Link

module _ (r : Redis) where
  deliver : {A : Type 0} → Link → List Link → (r.Db → A × r.Db) → r.Db → Result A × Net r
  deliver up rest command db =
      let (a, db') = command db in (ok a, record { db = db'; links = rest })
  deliver (request_lost e) rest command db = (err e, record { db = db; links = rest })
  deliver (reply_lost e) rest command db =
      let (a, db') = command db in (err e, record { db = db'; links = rest })

  round_trip : {A : Type 0} → List Link → (r.Db → A × r.Db) → r.Db → Result A × Net r
  round_trip [] = deliver up []
  round_trip (link ∷ rest) = deliver link rest

  -- One command, script or pipeline of the client.
  unfoldable pub call : {A : Type 0} → (r.Db → A × r.Db) → Net r → Result A × Net r
  unfolding deliver round_trip
  call command n = round_trip n.links command n.db

-- The next round trip succeeds.
abbrev pub IsUp : List Link → Type 0
IsUp [] = Unit
IsUp (up ∷ rest) = Unit
IsUp (request_lost e ∷ rest) = ⊥
IsUp (reply_lost e ∷ rest) = ⊥

abbrev pub remaining : List Link → List Link
remaining [] = []
remaining (link ∷ rest) = rest

module _ (r : Redis) where
  round_trip_up :
      {A : Type 0} (command : r.Db → A × r.Db) (links : List Link) (db : r.Db)
      → IsUp links
      → round_trip r links command db
        ≡ (ok (command db).0, record { db = (command db).1; links = remaining links })
  unfolding round_trip deliver
  round_trip_up command [] db h = refl
  round_trip_up command (up ∷ rest) db h = refl
  round_trip_up command (request_lost e ∷ rest) db h = elim h [ ]
  round_trip_up command (reply_lost e ∷ rest) db h = elim h [ ]

  pub call_up :
      {A : Type 0} (command : r.Db → A × r.Db) (n : Net r)
      → IsUp n.links
      → call r command n
        ≡ (ok (command n.db).0, record { db = (command n.db).1; links = remaining n.links })
  unfolding call
  call_up command n h = round_trip_up command n.links n.db h

  round_trip_db :
      {A : Type 0} (command : r.Db → A × r.Db) (links : List Link) (db : r.Db)
      → ((round_trip r links command db).1.db ≡ db)
        ⊎ ((round_trip r links command db).1.db ≡ (command db).1)
  unfolding round_trip deliver
  round_trip_db command [] db = inr refl
  round_trip_db command (up ∷ rest) db = inr refl
  round_trip_db command (request_lost e ∷ rest) db = inl refl
  round_trip_db command (reply_lost e ∷ rest) db = inr refl

  -- Whatever happens to a round trip, the command took effect once or not at all.
  pub call_db :
      {A : Type 0} (command : r.Db → A × r.Db) (n : Net r)
      → ((call r command n).1.db ≡ n.db) ⊎ ((call r command n).1.db ≡ (command n.db).1)
  unfolding call
  call_db command n = round_trip_db command n.links n.db

  round_trip_ok :
      {A : Type 0} (command : r.Db → A × r.Db) (links : List Link) (db : r.Db) {a : A}
      → (round_trip r links command db).0 ≡ ok a
      → ((command db).0 ≡ a) × ((round_trip r links command db).1.db ≡ (command db).1)
  unfolding round_trip deliver
  round_trip_ok command [] db h = (ok-injective h, refl)
  round_trip_ok command (up ∷ rest) db h = (ok-injective h, refl)
  round_trip_ok command (request_lost e ∷ rest) db h = cc
  round_trip_ok command (reply_lost e ∷ rest) db h = cc

  -- A reply that arrives is the command's, which took effect.
  pub call_ok :
      {A : Type 0} (command : r.Db → A × r.Db) (n : Net r) {a : A}
      → (call r command n).0 ≡ ok a
      → ((command n.db).0 ≡ a) × ((call r command n).1.db ≡ (command n.db).1)
  unfolding call
  call_ok command n h = round_trip_ok command n.links n.db h

  -- What the command leaves alone, the call leaves alone.
  pub call_keeps :
      {A B : Type 0} (command : r.Db → A × r.Db) (n : Net r) (view : r.Db → B)
      → view (command n.db).1 ≡ view n.db
      → view (call r command n).1.db ≡ view n.db
  call_keeps command n view h = elim (call_db command n) [
    | inl same ↦ ap view same
    | inr new ↦ ap view new ∙ h
  ]
