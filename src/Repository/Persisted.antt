-- ===== src/Repository/Persisted.antt =====
-- What a call of `SaveResults` (internal/repository/poll.go) leaves, whether it succeeds or not.
use mathlib.Core.Path.{subst}
use voting_service.Base.{
  ℕ, ◌≤◌, max, String, Bool, true, false, ◌≡◌, ◌≢◌, refl, sym, ap, ◌∙◌, inl, inr, ◌⊎◌, Option, none,
  some, List, [], ◌∷◌, if◌then◌else◌, str_eq, str_eq_iff, str_eq_ne, lookup, arith, Bool-cases,
  Option-cases,
}
use voting_service.Base.Int.{ℤ, pos, negsuc, ◌≤ℤ◌}
use voting_service.Entity.Errors.{ok}
use voting_service.Entity.Poll.{Poll}
use voting_service.Ports.{Counts}
use voting_service.Redis.{raw_number}
use voting_service.Repository.Tables.{PollRow, ResultRow, Tables, has_result}
use voting_service.Repository.Queries.{upsert, upsert_all, joined, scan_poll}
use voting_service.Repository.Poll.{Db}
use voting_service.Repository.Calls.{save_results, run_upsert, calling, read_poll}
use voting_service.Repository.Create.{some-bind, some-injective}
use voting_service.Repository.Saved.{
  find_votes, AtLeast, Grown, AllReached, upsert_all-AllReached, save_results-AllReached,
}
use voting_service.Repository.Bounded.{votes_in, AllKept, upsert_all-bounded, upsert_all-other_poll}
use voting_service.Repository.Statements.{none-else, exec-tables}

raw_number_mono : (a b : ℤ) → a ≤ℤ b → raw_number (some a) ≤ raw_number (some b)
raw_number_mono (pos a) (pos b) h = omega (arith, h)
raw_number_mono (negsuc a) b h = omega arith
raw_number_mono (pos a) (negsuc b) h = omega (arith, h)

Grown-votes_in :
    (q r : String) (rows rows' : List ResultRow)
    → Grown rows rows'
    → votes_in q r rows ≤ votes_in q r rows'
Grown-votes_in q r rows rows' grown = elim (Option-cases (find_votes q r rows)) [
  | inl missing ↦ omega (arith, ap raw_number missing)
  | inr (v, found) ↦
      let (v', found', more) = grown q r v found in
      omega (arith, ap raw_number found, ap raw_number found', raw_number_mono v v' more)
]

AllReached-lookup :
    (uuid : String → Option String) (p o : String) (z : ℤ) (counts : Counts) (rows : List ResultRow)
    → uuid o ≡ some o
    → AllReached uuid p counts rows
    → lookup o counts ≡ some z
    → AtLeast z (find_votes p o rows)
unfolding lookup
AllReached-lookup uuid p o z [] rows kept all found = absurd (cc found)
AllReached-lookup uuid p o z ((k, v) ∷ counts) rows kept (this, all) found =
    elim (Bool-cases (str_eq k o)) [
      | inl same ↦
          let (key, known, reached) = this in
          let value : v ≡ z = some-injective (rw same at found) in
          let own : key ≡ o =
            some-injective (sym known ∙ ap uuid ((str_eq_iff k o).0 same) ∙ kept) in
          subst (λ y. AtLeast y (find_votes p o rows)) value
            (subst (λ i. AtLeast v (find_votes p i rows)) own reached)
      | inr other ↦ AllReached-lookup uuid p o z counts rows kept all (rw other at found)
    ]

-- Tables that differ in the results alone.
abbrev SameRows : Tables → Tables → Type 0
SameRows t u = u ≡ record t { results = u.results }

upsert-SameRows : (p o : String) (v : ℤ) (t u : Tables) → upsert p o v t ≡ some u → SameRows t u
unfolding upsert
upsert-SameRows p o v t u e = by_row (has_result p o t.results) _ _ (none-else _ _ u e)
  where
    by_row :
        (there : Bool) (one two : List ResultRow)
        → (if there then some (record t { results = one }) else some (record t { results = two }))
          ≡ some u
        → SameRows t u
    by_row true one two e = subst (λ x. SameRows t x) (some-injective e) refl
    by_row false one two e = subst (λ x. SameRows t x) (some-injective e) refl

module _ (uuid : String → Option String) where
  upsert_all-SameRows :
      (p : String) (seen : List String) (counts : Counts) (t u : Tables)
      → upsert_all uuid p seen counts t ≡ some u
      → SameRows t u
  unfolding upsert_all
  upsert_all-SameRows p seen [] t u e = subst (λ x. SameRows t x) (some-injective e) refl
  upsert_all-SameRows p seen ((k, v) ∷ counts) t u e =
      let (id, known, e1) = some-bind (uuid k) _ u e in
      let (x, put, e2) = some-bind (upsert p id v t) _ u (none-else _ _ u e1) in
      upsert_all-SameRows p (id ∷ seen) counts x u e2
      ∙ ap (λ (y : Tables). record y { results = u.results }) (upsert-SameRows p id v t x put)

  joined-results :
      (id : String) (t : Tables) (results : List ResultRow) (rows : List PollRow)
      → joined id (record t { results = results }) rows ≡ joined id t rows
  unfolding joined
  joined-results id t results [] = refl
  joined-results id t results (row ∷ rows) = rw (joined-results id t results rows) refl

  read_poll-results :
      (q : String) (t : Tables) (results : List ResultRow)
      → read_poll uuid q (record t { results = results }) ≡ read_poll uuid q t
  unfolding read_poll
  read_poll-results q t results = by_id (uuid q)
    where
      by_id :
          (o : Option String)
          → (elim o as (λ _. Option (Option Poll)) [
            | none ↦ none
            | some id ↦ some (scan_poll none (joined id (record t { results = results }) t.polls))
          ])
            ≡ (elim o as (λ _. Option (Option Poll)) [
              | none ↦ none
              | some id ↦ some (scan_poll none (joined id t t.polls))
            ])
      by_id none = refl
      by_id (some id) = ap (λ x. some (scan_poll none x)) (joined-results id t results t.polls)

  -- What `SaveResults` leaves: the tables as they were, or the rows of the upsert.
  pub save_results-left :
      (id : String) (counts : Counts) (w : Db)
      → ((save_results uuid id counts w).1.tables ≡ w.tables)
        ⊎ ((key : String) × (uuid id ≡ some key)
            × (upsert_all uuid key [] counts w.tables
                ≡ some (save_results uuid id counts w).1.tables))
  unfolding save_results calling run_upsert
  save_results-left id [] w = inl refl
  save_results-left id (count ∷ counts) w =
      elim (exec-tables (run_upsert uuid id (count ∷ counts)) w) [
        | inl same ↦ inl same
        | inr (_, t, ran, left) ↦
            let (key, known, e1) = some-bind (uuid id) _ (tt, t) ran in
            let (u, put, same) =
              some-bind (upsert_all uuid key [] (count ∷ counts) w.tables) _ (tt, t) e1 in
            inr (key, known, put ∙ ap some (ap (λ x. x.1) (some-injective same) ∙ sym left))
      ]

  -- Other polls keep their results, and a result is at most the greater of what it was and its
  -- count, for identifiers that the database keeps.
  pub save_results-other_poll :
      (p q r : String) (counts : Counts) (w : Db)
      → uuid p ≡ some p
      → q ≢ p
      → votes_in q r (save_results uuid p counts w).1.tables.results ≡ votes_in q r w.tables.results
  save_results-other_poll p q r counts w kept other = elim (save_results-left p counts w) [
    | inl same ↦ ap (λ t. votes_in q r t.results) same
    | inr (key, known, put) ↦
        let own = some-injective (sym known ∙ kept) in
        ap raw_number (
          upsert_all-other_poll uuid key q r [] counts w.tables _
            (str_eq_ne key q (λ e. other (sym e ∙ own))) put)
  ]

  pub save_results-bounded :
      (p r : String) (n : ℕ) (counts : Counts) (w : Db)
      → uuid p ≡ some p
      → AllKept uuid counts
      → ((z : ℤ) → lookup r counts ≡ some z → raw_number (some z) ≤ n)
      → votes_in p r (save_results uuid p counts w).1.tables.results
        ≤ max (votes_in p r w.tables.results) n
  save_results-bounded p r n counts w named kept most = elim (save_results-left p counts w) [
    | inl same ↦ omega (arith, ap (λ t. votes_in p r t.results) same)
    | inr (key, known, put) ↦
        let own = some-injective (sym known ∙ named) in
        upsert_all-bounded uuid p r n [] counts w.tables _ kept most
          (ap (λ k. upsert_all uuid k [] counts w.tables) (sym own) ∙ put)
  ]

  -- Polls are read as they were.
  pub save_results-read_poll :
      (id q : String) (counts : Counts) (w : Db)
      → read_poll uuid q (save_results uuid id counts w).1.tables ≡ read_poll uuid q w.tables
  save_results-read_poll id q counts w = elim (save_results-left id counts w) [
    | inl same ↦ ap (read_poll uuid q) same
    | inr (key, known, put) ↦
        ap (read_poll uuid q) (upsert_all-SameRows key [] counts w.tables _ put)
        ∙ read_poll-results q w.tables _
  ]

  -- No result falls.
  pub save_results-grows :
      (id q r : String) (counts : Counts) (w : Db)
      → votes_in q r w.tables.results
        ≤ votes_in q r (save_results uuid id counts w).1.tables.results
  save_results-grows id q r counts w = elim (save_results-left id counts w) [
    | inl same ↦ omega (arith, ap (λ t. votes_in q r t.results) same)
    | inr (key, known, put) ↦
        Grown-votes_in q r _ _ (upsert_all-AllReached uuid key [] counts w.tables _ put).0
  ]

  -- A call that succeeds reaches the count of each option.
  pub save_results-reaches :
      (p o : String) (n : ℕ) (counts : Counts) (w : Db)
      → uuid p ≡ some p
      → uuid o ≡ some o
      → lookup o counts ≡ some (pos n)
      → (save_results uuid p counts w).0 ≡ ok tt
      → n ≤ votes_in p o (save_results uuid p counts w).1.tables.results
  save_results-reaches p o n counts w named kept found done =
      let all = (save_results-AllReached uuid p p counts w named done).1 in
      let (v, there, most) = AllReached-lookup uuid p o (pos n) counts _ kept all found in
      omega (arith, ap raw_number there, raw_number_mono (pos n) v most)
