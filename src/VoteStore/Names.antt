-- ===== src/VoteStore/Names.antt =====
-- Different counters have different keys (internal/votestore/redis.go).
use Prim.Native.String
use Prim.Native.String.{◌++◌ as ◌<>◌}
use Prim.Native.Char.{Char, code}
use text.Mathlib.TextLemmas.{
  append_cancel_left, append_cancel_right, append_inj, head-eq_of_cons-eq, tail-eq_of_cons-eq,
  cons-append,
}
use voting_service.Base.{ℕ, String, ◌≡◌, ◌≢◌, sym, ap, ◌∙◌, arith, decimal, decimal_injective}
use voting_service.VoteStore.Keys.{tag_for_shard, counts_key, voted_key, rate_key, quota_key}

-- Different shards of a poll have different counters.
pub counts_key_injective : (p : String) (i j : ℕ) → counts_key p i ≡ counts_key p j → i ≡ j
unfolding counts_key tag_for_shard
counts_key_injective p i j e = decimal_injective i j (
    append_cancel_right (decimal i) (decimal j) "}" (
      append_cancel_left ":" _ _ (
        append_cancel_left p _ _
          (append_cancel_left "{v:" _ _ (append_cancel_right _ _ ":counts" e)))))

-- Polls with identifiers of the same length have different counters.
pub counts_key_poll :
    (p q : String) (i j : ℕ)
    → String.count p ≡ String.count q
    → counts_key p i ≡ counts_key q j
    → p ≡ q
unfolding counts_key tag_for_shard
counts_key_poll p q i j same e =
    (append_inj (append_cancel_left "{v:" _ _ (append_cancel_right _ _ ":counts" e)) same).0

-- Two texts with the same first character and different second ones.
second_differs :
    (a b c : Char) (s t : String)
    → String.◌∷◌ a (String.◌∷◌ b s) ≡ String.◌∷◌ a (String.◌∷◌ c t)
    → code b ≡ code c
second_differs a b c s t e = ap code (head-eq_of_cons-eq (tail-eq_of_cons-eq e))

-- A dedup slot is no counter of its shard.
pub voted-ne-counts : (p h : String) (i : ℕ) → voted_key p i h ≢ counts_key p i
unfolding counts_key voted_key
voted-ne-counts p h i e = absurd_codes (
    second_differs ":" "v" "c" ("oted:" <> h) "ounts" (
      sym (cons-append ":" "voted:" h ∙ ap (String.◌∷◌ ":") (cons-append "v" "oted:" h))
      ∙ append_cancel_left (tag_for_shard p i) _ _ e))
  where
    absurd_codes : ◌≡◌ {A = ℕ} b'v' b'c' → ⊥
    absurd_codes q = omega arith

pub rate-ne-quota : (ip p : String) → rate_key ip ≢ quota_key ip p
unfolding rate_key quota_key
rate-ne-quota ip p e = absurd_codes (
    second_differs ":" "p" "r" ("q:" <> p) "l" (
      sym (cons-append ":" "pq:" p ∙ ap (String.◌∷◌ ":") (cons-append "p" "q:" p))
      ∙ sym (append_cancel_left ("{ip:" <> (ip <> "}")) _ _ e)))
  where
    absurd_codes : ◌≡◌ {A = ℕ} b'p' b'r' → ⊥
    absurd_codes q = omega arith
