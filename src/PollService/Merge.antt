-- ===== src/PollService/Merge.antt =====
-- What a read of results and a page of the list contain (internal/service/poll.go).
use voting_service.Base.{
  ℕ, max, String, true, some, List, [], ◌∷◌, ◌≡◌, refl, ◌∙◌, arith, if◌then◌else◌, lookup, insert,
  lookup-insert, contains, str_eq_iff, Bool-cases, inl, inr,
}
use voting_service.Base.Int.{ℤ, pos, add_int64}
use voting_service.Entity.Errors.{ok}
use voting_service.Entity.Poll.{Poll, option_ids}
use voting_service.Ports.{Counts}
use voting_service.VoteStore.Replies.{Holds}
use voting_service.PollService.Polls.{
  Results, count_at, counts_of, merged, merge_counts, results_of,
}

merge_counts-lookup :
    (durable live : Counts) (ids : List String) (counts : Counts) (total : ℤ) (o : String)
    → lookup o (merge_counts durable live ids counts total).0
      ≡ (if contains o ids then some (merged durable live o) else lookup o counts)
unfolding merge_counts contains
merge_counts-lookup durable live [] counts total o = refl
merge_counts-lookup durable live (id ∷ ids) counts total o = ground (
  arith,
  merge_counts-lookup durable live ids (insert id (merged durable live id) counts)
      (add_int64 total (merged durable live id)) o,
  lookup-insert id o (merged durable live id) counts,
  str_eq_iff id o,
  str_eq_iff o id,
)

count_at_held :
    (ids : List String) (g : String → ℕ) (c : Counts) (o : String)
    → Holds ids g c
    → contains o ids ≡ true
    → count_at o c ≡ pos (g o)
unfolding count_at
count_at_held ids g c o h known = ground (arith, h o, known)

-- If both reads succeed, with the votes `g` in PostgreSQL and `h` in Redis for the poll's options,
-- the results give each option the greater of the two, and nothing else.
pub results_of-max :
    (poll : Poll) (g h : String → ℕ) (durable live : Counts)
    → Holds (option_ids poll) g durable
    → Holds (option_ids poll) h live
    → (r : Results) × (results_of poll (ok durable) (ok live) ≡ ok r)
      × Holds (option_ids poll) (λ o. max (g o) (h o)) r.counts
unfolding results_of counts_of merged lookup
results_of-max poll g h durable live held held' = (
  _,
  refl,
  λ o.
      merge_counts-lookup durable live (option_ids poll) [] (pos 0) o
      ∙ elim (Bool-cases (contains o (option_ids poll))) [
        | inl known ↦
            rw
              (
                known,
                count_at_held (option_ids poll) g durable o held known,
                count_at_held (option_ids poll) h live o held' known,
              )
              (ground arith)
        | inr unknown ↦ rw unknown refl
      ],
)
