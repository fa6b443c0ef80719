-- ===== src/Repository/Bounded.antt =====
-- What the upsert of `SaveResults` (internal/repository/poll.go) does not raise: other results, and a result over
-- the count that is saved.
use mathlib.Core.Path.{subst}
use voting_service.Base.{
  ℕ, ◌≤◌, max, String, Bool, true, false, ◌&&◌, ◌≡◌, ◌≢◌, refl, sym, ap, ◌∙◌, inl, inr, Option,
  none, some, List, [], ◌∷◌, ◌++◌, if◌then◌else◌, str_eq, str_eq_iff, str_eq_refl, contains, lookup,
  arith, Bool-cases,
}
use voting_service.Base.Int.{ℤ, ltb_ℤ}
use voting_service.Ports.{Counts}
use voting_service.Redis.{raw_number}
use voting_service.Repository.Tables.{ResultRow, Tables, has_result}
use voting_service.Repository.Queries.{raise_votes, upsert, upsert_all}
use voting_service.Repository.Create.{some-bind, some-injective}
use voting_service.Repository.Saved.{find_votes, append-AtLeast}
use voting_service.Repository.Statements.{none-else}

-- The votes of an option in a poll, 0 where there are none.
abbrev pub votes_in : String → String → List ResultRow → ℕ
votes_in p o rows = raw_number (find_votes p o rows)

-- Another poll or another option.
abbrev pub ElsewhereRow : String → String → String → String → Type 0
ElsewhereRow p o q r = (str_eq p q && str_eq o r) ≡ false

raise_votes-other :
    (p o q r : String) (v : ℤ) (rows : List ResultRow)
    → ElsewhereRow p o q r
    → find_votes q r (raise_votes p o v rows) ≡ find_votes q r rows
unfolding find_votes raise_votes
raise_votes-other p o q r v [] other = refl
raise_votes-other p o q r v (row ∷ rows) other =
    let ih = raise_votes-other p o q r v rows other in
    elim (Bool-cases (str_eq row.poll_id p && str_eq row.option_id o)) [
      | inl hit ↦
          let there : (str_eq row.poll_id q && str_eq row.option_id r) ≡ false =
            ground (arith, hit, other, str_eq_iff row.poll_id p, str_eq_iff row.option_id o) in
          rw hit (rw there ih)
      | inr missed ↦ rw missed (
          ap (λ f. if str_eq row.poll_id q && str_eq row.option_id r then some row.votes else f) ih)
    ]

greatest_bounded :
    (a b : ℤ)
    → raw_number (some (if ltb_ℤ a b then b else a))
      ≤ max (raw_number (some a)) (raw_number (some b))
greatest_bounded a b = elim (Bool-cases (ltb_ℤ a b)) [
  | inl less ↦ rw less (omega arith)
  | inr more ↦ rw more (omega arith)
]

raise_votes-bounded :
    (p o : String) (v : ℤ) (rows : List ResultRow)
    → votes_in p o (raise_votes p o v rows) ≤ max (votes_in p o rows) (raw_number (some v))
unfolding find_votes raise_votes
raise_votes-bounded p o v [] = omega arith
raise_votes-bounded p o v (row ∷ rows) =
    elim (Bool-cases (str_eq row.poll_id p && str_eq row.option_id o)) [
      | inl hit ↦ rw hit (rw hit (greatest_bounded row.votes v))
      | inr missed ↦ rw missed (rw missed (raise_votes-bounded p o v rows))
    ]

append-other :
    (p o q r : String) (v : ℤ) (rows : List ResultRow)
    → ElsewhereRow p o q r
    → find_votes q r (rows ++ record { poll_id = p; option_id = o; votes = v } ∷ [])
      ≡ find_votes q r rows
unfolding find_votes
append-other p o q r v [] other = rw other refl
append-other p o q r v (row ∷ rows) other =
    ap (λ f. if str_eq row.poll_id q && str_eq row.option_id r then some row.votes else f)
      (append-other p o q r v rows other)

-- After a row of the upsert: other results are the same, and this one is at most the greater.
abbrev Bounded : String → String → ℤ → List ResultRow → List ResultRow → Type 0
Bounded p o v rows rows' =
    ((q r : String) → ElsewhereRow p o q r → find_votes q r rows' ≡ find_votes q r rows)
    × (votes_in p o rows' ≤ max (votes_in p o rows) (raw_number (some v)))

upsert-Bounded :
    (p o : String) (v : ℤ) (t u : Tables)
    → upsert p o v t ≡ some u
    → Bounded p o v t.results u.results
unfolding upsert
upsert-Bounded p o v t u e = by_row (has_result p o t.results) refl (none-else _ _ u e)
  where
    by_row :
        (there : Bool)
        → has_result p o t.results ≡ there
        → (if there
            then some (record t { results = raise_votes p o v t.results })
            else some (record t {
              results = t.results ++ record { poll_id = p; option_id = o; votes = v } ∷ [];
            }))
          ≡ some u
        → Bounded p o v t.results u.results
    by_row true there e =
        subst (λ x. Bounded p o v t.results x.results) (some-injective e)
          ((λ q r. raise_votes-other p o q r v t.results), raise_votes-bounded p o v t.results)
    by_row false there e =
        subst (λ x. Bounded p o v t.results x.results) (some-injective e)
          (
            (λ q r. append-other p o q r v t.results),
            omega (arith, ap raw_number (append-AtLeast p o v t.results there)),
          )

unseen :
    {A : Type 0} (test : Bool) (o : Option A) (a : A)
    → (if test then none else o) ≡ some a
    → test ≡ false
unseen true o a e = absurd (cc e)
unseen false o a e = refl

-- The keys of counts are the identifiers that the database keeps.
abbrev pub AllKept : (String → Option String) → Counts → Type 0
AllKept uuid counts = (k : String) → lookup k counts ≢ none → uuid k ≡ some k

module _ (uuid : String → Option String) where
  -- One row of the upsert, and the rest.
  upsert_all-step :
      (p : String) (seen : List String) (k : String) (v : ℤ) (counts : Counts) (t u : Tables)
      → upsert_all uuid p seen ((k, v) ∷ counts) t ≡ some u
      → (id : String) × (x : Tables) × (uuid k ≡ some id)
        × (contains id seen ≡ false)
        × Bounded p id v t.results x.results
        × (upsert_all uuid p (id ∷ seen) counts x ≡ some u)
  unfolding upsert_all
  upsert_all-step p seen k v counts t u e =
      let (id, known, e1) = some-bind (uuid k) _ u e in
      let (x, put, e2) = some-bind (upsert p id v t) _ u (none-else (contains id seen) _ u e1) in
      (id, x, known, unseen (contains id seen) _ u e1, upsert-Bounded p id v t x put, e2)

  pub upsert_all-other_poll :
      (p q r : String) (seen : List String) (counts : Counts) (t u : Tables)
      → str_eq p q ≡ false
      → upsert_all uuid p seen counts t ≡ some u
      → find_votes q r u.results ≡ find_votes q r t.results
  unfolding upsert_all
  upsert_all-other_poll p q r seen [] t u other e =
      ap (λ x. find_votes q r x.results) (sym (some-injective e))
  upsert_all-other_poll p q r seen ((k, v) ∷ counts) t u other e =
      let (id, x, known, fresh, bounded, rest) = upsert_all-step p seen k v counts t u e in
      upsert_all-other_poll p q r (id ∷ seen) counts x u other rest
      ∙ bounded.0 q r (ground (arith, other))

  -- An option that was written is not written again.
  upsert_all-seen :
      (p r : String) (seen : List String) (counts : Counts) (t u : Tables)
      → contains r seen ≡ true
      → upsert_all uuid p seen counts t ≡ some u
      → find_votes p r u.results ≡ find_votes p r t.results
  unfolding upsert_all contains
  upsert_all-seen p r seen [] t u held e =
      ap (λ x. find_votes p r x.results) (sym (some-injective e))
  upsert_all-seen p r seen ((k, v) ∷ counts) t u held e =
      let (id, x, known, fresh, bounded, rest) = upsert_all-step p seen k v counts t u e in
      let other : str_eq id r ≡ false = elim (Bool-cases (str_eq id r)) [
        | inl same ↦
            absurd (cc (held, ap (λ i. contains i seen) (sym ((str_eq_iff id r).0 same)), fresh))
        | inr other ↦ other
      ] in
      upsert_all-seen p r (id ∷ seen) counts x u (ground (arith, held)) rest
      ∙ bounded.0 p r (ground (arith, other))

  pub upsert_all-bounded :
      (p r : String) (n : ℕ) (seen : List String) (counts : Counts) (t u : Tables)
      → AllKept uuid counts
      → ((z : ℤ) → lookup r counts ≡ some z → raw_number (some z) ≤ n)
      → upsert_all uuid p seen counts t ≡ some u
      → votes_in p r u.results ≤ max (votes_in p r t.results) n
  unfolding upsert_all lookup contains
  upsert_all-bounded p r n seen [] t u kept most e =
      omega (arith, ap (λ x. votes_in p r x.results) (some-injective e))
  upsert_all-bounded p r n seen ((k, v) ∷ counts) t u kept most e =
      let (id, x, known, fresh, bounded, rest) = upsert_all-step p seen k v counts t u e in
      let own : id ≡ k = some-injective (sym known ∙ kept k (λ l. cc (l, head k v counts))) in
      elim (Bool-cases (str_eq k r)) [
        | inl same ↦
            let at : id ≡ r = own ∙ (str_eq_iff k r).0 same in
            omega (
              arith,
              ap raw_number
                  (upsert_all-seen p r (id ∷ seen) counts x u (rw at (listed r seen)) rest),
              subst
                  (λ i. votes_in p i x.results ≤ max (votes_in p i t.results) (raw_number (some v)))
                  at bounded.1,
              most v (rw same refl),
            )
        | inr other ↦ omega (
          arith,
          upsert_all-bounded p r n (id ∷ seen) counts x u (λ j l. kept j (later j k v counts l))
              (λ z l. most z (rw other l)) rest,
          ap raw_number (bounded.0 p r (rw own (ground (arith, other)))),
        )
      ]
    where
      head : (k : String) (v : ℤ) (counts : Counts) → lookup k ((k, v) ∷ counts) ≡ some v
      head k v counts = rw (str_eq_refl k) refl

      listed : (r : String) (seen : List String) → contains r (r ∷ seen) ≡ true
      listed r seen = rw (str_eq_refl r) refl

      later :
          (j k : String) (v : ℤ) (counts : Counts)
          → lookup j counts ≢ none
          → lookup j ((k, v) ∷ counts) ≢ none
      later j k v counts l l' = by_key (str_eq k j) l'
        where
          by_key : (same : Bool) → (if same then some v else lookup j counts) ≢ none
          by_key true e = cc e
          by_key false e = l e
