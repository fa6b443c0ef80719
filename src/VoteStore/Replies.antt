-- ===== src/VoteStore/Replies.antt =====
-- One reply of `HGETALL` added to the counts (internal/votestore/redis.go).
use voting_service.Base.{
  ℕ, ◌+◌, ◌≤◌, ◌<◌, ◌^◌, ◌≡◌, refl, ◌∙◌, ap, inl, inr, String, true, false, some, none, List, [],
  ◌∷◌, map, arith, if◌then◌else◌, str_eq, str_eq_iff, str_eq_refl, Bool-cases, contains, lookup,
  insert, lookup-insert, parse_int,
}
use voting_service.Base.Int.{ℤ, pos, add_int64, add_int64_small}
use voting_service.Entity.Errors.{ok}
use voting_service.Ports.{Counts}
use voting_service.Redis.{IsReply, value_in}
use voting_service.VoteStore.Store.{zero_counts, add_reply}

-- The map holds the numbers of `g` at the identifiers asked for, and nothing else.
abbrev pub Holds : List String → (String → ℕ) → Counts → Type 0
Holds ids g c = (o : String) → lookup o c ≡ (if contains o ids then some (pos (g o)) else none)

pub zero_counts_lem :
    (ids : List String) (o : String) (c : Counts)
    → lookup o (zero_counts ids c) ≡ (if contains o ids then some (pos 0) else lookup o c)
unfolding zero_counts contains
zero_counts_lem [] o c = refl
zero_counts_lem (id ∷ ids) o c = ground (
  arith,
  zero_counts_lem ids o (insert id (pos 0) c),
  lookup-insert id o (pos 0) c,
  str_eq_iff id o,
  str_eq_iff o id,
)

pub value_in_absent :
    (f : String) (reply : List (String × String))
    → contains f (map (λ x. x.0) reply) ≡ false
    → value_in f reply ≡ 0
unfolding contains
value_in_absent f [] h = refl
value_in_absent f ((g, raw) ∷ reply) h =
    ground (arith, value_in_absent f reply, str_eq_iff f g, str_eq_iff g f)

-- A read counter is added to the number held for its option.
pub raised : String → ℕ → (String → ℕ) → String → ℕ
raised f v g o = if str_eq f o then g f + v else g o

pub raised-Holds :
    (ids : List String) (f : String) (v : ℕ) (g : String → ℕ) (c : Counts)
    → Holds ids g c
    → contains f ids ≡ true
    → g f + v < 2 ^ 63
    → Holds ids (raised f v g) (insert f (add_int64 (pos (g f)) (pos v)) c)
unfolding raised
raised-Holds ids f v g c h asked room o =
    rw (add_int64_small (g f) v room)
      (lookup-insert f o (pos (g f + v)) c ∙ ground (arith, h o, asked, str_eq_iff f o))

-- The pair at the head of a reply, where its field is asked for.
value_cons :
    (f raw o : String) (v : ℕ) (g : String → ℕ) (reply : List (String × String))
    → parse_int raw ≡ some (pos v)
    → contains f (map (λ x. x.0) reply) ≡ false
    → raised f v g o + value_in o reply ≡ g o + value_in o ((f, raw) ∷ reply)
unfolding raised
value_cons f raw o v g reply parsed absent =
    ground (arith, value_in_absent f reply absent, str_eq_iff f o, parsed)

-- The pair at the head of a reply, where its field is skipped.
value_skip :
    (f raw o : String) (ids : List String) (reply : List (String × String))
    → contains f ids ≡ false
    → contains o ids ≡ true
    → value_in o reply ≡ value_in o ((f, raw) ∷ reply)
value_skip f raw o ids reply skipped asked = ground (arith, str_eq_iff f o)

pub fits_head :
    (f raw : String) (v : ℕ) (g : String → ℕ) (reply : List (String × String))
    → parse_int raw ≡ some (pos v)
    → g f + value_in f ((f, raw) ∷ reply) < 2 ^ 63
    → g f + v < 2 ^ 63
fits_head f raw v g reply parsed room = ground (arith, str_eq_refl f)

pub value_grows :
    (f raw o : String) (reply : List (String × String))
    → contains f (map (λ x. x.0) reply) ≡ false
    → value_in o reply ≤ value_in o ((f, raw) ∷ reply)
value_grows f raw o reply absent = ground (arith, value_in_absent f reply absent, str_eq_iff f o)

add_reply_asked :
    (f raw : String) (reply : List (String × String)) (c : Counts) {old v : ℤ}
    → lookup f c ≡ some old
    → parse_int raw ≡ some v
    → add_reply ((f, raw) ∷ reply) c ≡ add_reply reply (insert f (add_int64 old v) c)
unfolding add_reply
add_reply_asked f raw reply c held parsed = rw (held, parsed, add_reply) refl

add_reply_skipped :
    (f raw : String) (reply : List (String × String)) (c : Counts)
    → lookup f c ≡ none
    → add_reply ((f, raw) ∷ reply) c ≡ add_reply reply c
unfolding add_reply
add_reply_skipped f raw reply c held = rw (held, add_reply) refl

pub add_reply_total :
    (ids : List String) (reply : List (String × String)) (g : String → ℕ) (c : Counts)
    → IsReply reply
    → Holds ids g c
    → ((o : String) → g o + value_in o reply < 2 ^ 63)
    → (c' : Counts) × (add_reply reply c ≡ ok c') × Holds ids (λ o. g o + value_in o reply) c'
unfolding add_reply
add_reply_total ids [] g c w h room = (
  c,
  refl,
  λ o.
      h o
      ∙ ap (λ t. if contains o ids then some (pos t) else none)
          (let e : g o ≡ g o + 0 = omega arith in e),
)
add_reply_total ids ((f, raw) ∷ reply) g c w h room = elim (Bool-cases (contains f ids)) [
  | inl asked ↦
      let v = w.0.0 in
      let step = λ (o : String). value_cons f raw o v g reply w.0.1 w.1 in
      let fits : g f + v < 2 ^ 63 = fits_head f raw v g reply w.0.1 (room f) in
      let next = insert f (add_int64 (pos (g f)) (pos v)) c in
      let (c', added, held) =
        add_reply_total ids reply (raised f v g) next w.2 (raised-Holds ids f v g c h asked fits)
          (λ o. rw (step o) (room o)) in
      (
        c',
        add_reply_asked f raw reply c (h f ∙ rw asked) w.0.1 ∙ added,
        λ o. held o ∙ ap (λ t. if contains o ids then some (pos t) else none) (step o),
      )
  | inr skipped ↦
      let (c', added, held) =
        add_reply_total ids reply g c w.2 h
          (λ o. omega (arith, room o, value_grows f raw o reply w.1)) in
      (
        c',
        add_reply_skipped f raw reply c (h f ∙ rw skipped) ∙ added,
        λ o. held o ∙ elim (Bool-cases (contains o ids)) [
          | inl asked ↦
              rw asked (ap (λ t. some (pos (g o + t))) (value_skip f raw o ids reply skipped asked))
          | inr other ↦ rw other
        ],
      )
]
