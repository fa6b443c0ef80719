-- ===== src/VoteStore/Counters.antt =====
-- What `Store.Counters` returns (internal/votestore/redis.go).
use voting_service.Base.{
  ℕ, zero, suc, ◌+◌, ◌<◌, ◌^◌, ◌≡◌, refl, ◌∙◌, ap, String, some, none, List, [], ◌∷◌, ◌++◌, arith,
  if◌then◌else◌, contains, lookup,
}
use native.Mathlib.Nat.{add_assoc, zero-add}
use voting_service.Base.Int.{pos}
use voting_service.Entity.Errors.{Result, ok}
use voting_service.Ports.{Counts}
use voting_service.Redis.{Redis, RedisLaws, Net, IsUp, IsReply, value_in, call_up}
use voting_service.VoteStore.Ballots.{tally}
use voting_service.VoteStore.Keys.{counts_key}
use voting_service.VoteStore.Store.{
  Config, zero_counts, add_reply, add_replies, read_shards, sum_replies, counters,
}
use voting_service.VoteStore.Replies.{Holds, zero_counts_lem, add_reply_total}

add_replies_cons :
    (reply : List (String × String)) (replies : List (List (String × String))) (c next : Counts)
    → add_reply reply c ≡ ok next
    → add_replies (reply ∷ replies) c ≡ add_replies replies next
unfolding add_replies
add_replies_cons reply replies c next e = rw (e, add_replies) refl

abbrev AllReplies : List (List (String × String)) → Type 0
AllReplies [] = Unit
AllReplies (reply ∷ replies) = IsReply reply × AllReplies replies

abbrev sum_values : String → List (List (String × String)) → ℕ
sum_values o [] = 0
sum_values o (reply ∷ replies) = value_in o reply + sum_values o replies

add_replies_total :
    (ids : List String) (replies : List (List (String × String))) (g : String → ℕ) (c : Counts)
    → AllReplies replies
    → Holds ids g c
    → ((o : String) → g o + sum_values o replies < 2 ^ 63)
    → (c' : Counts) × (add_replies replies c ≡ ok c')
      × Holds ids (λ o. g o + sum_values o replies) c'
unfolding add_replies
add_replies_total ids [] g c w h room = (
  c,
  refl,
  λ o.
      h o
      ∙ ap (λ t. if contains o ids then some (pos t) else none)
          (let e : g o ≡ g o + 0 = omega arith in e),
)
add_replies_total ids (reply ∷ replies) g c w h room =
    let (next, added, held) = add_reply_total ids reply g c w.0 h (λ o. omega (arith, room o)) in
    let (c', rest, total) =
      add_replies_total ids replies (λ o. g o + value_in o reply) next w.1 held
        (λ o. omega (arith, room o)) in
    (
      c',
      add_replies_cons reply replies c next added ∙ rest,
      λ o.
          total o
          ∙ ap (λ t. if contains o ids then some (pos t) else none)
              (add_assoc (g o) (value_in o reply) (sum_values o replies)),
    )

module _ (r : Redis) (laws : RedisLaws r) where
  AllReplies-append :
      (xs : List (List (String × String))) (y : List (String × String))
      → AllReplies xs
      → IsReply y
      → AllReplies (xs ++ (y ∷ []))
  AllReplies-append [] y w v = (v, tt)
  AllReplies-append (x ∷ xs) y w v = (w.0, AllReplies-append xs y w.1 v)

  sum_values-append :
      (o : String) (xs : List (List (String × String))) (y : List (String × String))
      → sum_values o (xs ++ (y ∷ [])) ≡ value_in o y + sum_values o xs
  sum_values-append o [] y = refl
  sum_values-append o (x ∷ xs) y = omega (arith, sum_values-append o xs y)

  read_shards-AllReplies : (n : ℕ) (p : String) (db : r.Db) → AllReplies (read_shards r n p db)
  unfolding read_shards
  read_shards-AllReplies zero p db = tt
  read_shards-AllReplies (suc n) p db =
      AllReplies-append _ _ (read_shards-AllReplies n p db) (laws.hgetall_reply _ db)

  sum_values-read_shards :
      (n : ℕ) (p o : String) (db : r.Db) → sum_values o (read_shards r n p db) ≡ tally r n p o db
  unfolding read_shards
  sum_values-read_shards zero p o db = refl
  sum_values-read_shards (suc n) p o db = omega (
    arith,
    sum_values-append o (read_shards r n p db) (r.hgetall (counts_key p n) db),
    sum_values-read_shards n p o db,
    laws.hgetall_field (counts_key p n) o db,
  )

  -- When the store answers, and no total reaches the end of 64 bits, the counters are for each
  -- option asked for the votes of all shards of the poll, and there are no others.
  pub counters-tally :
      (checksum : String → ℕ) (cfg : Config) (p : String) (ids : List String) (n : Net r)
      → IsUp n.links
      → ((o : String) → tally r cfg.shards p o n.db < 2 ^ 63)
      → (c : Counts) × ((counters r checksum cfg p ids n).0 ≡ ok c)
        × Holds ids (λ o. tally r cfg.shards p o n.db) c
  unfolding counters sum_replies lookup
  counters-tally checksum cfg p ids n h room =
      let replies = read_shards r cfg.shards p n.db in
      let total = λ (o : String). sum_values-read_shards cfg.shards p o n.db in
      let (c, added, held) =
        add_replies_total ids replies (λ o. 0) (zero_counts ids [])
          (read_shards-AllReplies cfg.shards p n.db) (λ o. zero_counts_lem ids o [])
          (λ o. omega (arith, total o, room o)) in
      (
        c,
        ap (λ (m : Result (List (List (String × String))) × Net r). sum_replies ids m.0)
              (call_up r _ n h)
            ∙ added,
        λ o.
            held o ∙ ap (λ t. if contains o ids then some (pos t) else none) (zero-add _ ∙ total o),
      )
