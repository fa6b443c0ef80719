-- ===== src/Repository/Rows.antt =====
-- What the inserts of internal/repository/poll.go add to the tables.
use voting_service.Base.{
  Bool, true, false, ◌≡◌, refl, sym, ap, ◌∙◌, Option, none, some, List, [], ◌∷◌, ◌++◌,
  if◌then◌else◌, ◌||◌,
}
use mathlib.Core.List.{append_assoc, append-nil}
use voting_service.Repository.Tables.{
  PollRow, OptionRow, ResultRow, Tables, no_rows, has_poll, add_poll, add_option, add_result,
  add_rows,
}

guarded :
    (test : Bool) (u v : Tables)
    → (if test then none else some u) ≡ some v
    → (test ≡ false) × (v ≡ u)
guarded true u v e = absurd (cc e)
guarded false u v e = (refl, cc e)

first-false : (a b : Bool) → a || b ≡ false → a ≡ false
first-false true b e = absurd (cc e)
first-false false b e = refl

pub add_poll-rows :
    (t : Tables) (row : PollRow) (u v : Tables)
    → add_poll t row u ≡ some v
    → v ≡ record u { polls = u.polls ++ row ∷ [] }
unfolding add_poll
add_poll-rows t row u v e = (guarded _ _ v e).1

-- A poll that is added was not there.
pub add_poll-fresh :
    (t : Tables) (row : PollRow) (v : Tables)
    → add_poll t row no_rows ≡ some v
    → has_poll row.id t.polls ≡ false
unfolding add_poll
add_poll-fresh t row v e =
    let (unlike, _) = guarded _ _ v e in
    ap (has_poll row.id) (sym (append-nil t.polls)) ∙ first-false _ _ unlike

add_option-rows :
    (t : Tables) (row : OptionRow) (u v : Tables)
    → add_option t row u ≡ some v
    → v ≡ record u { options = u.options ++ row ∷ [] }
unfolding add_option
add_option-rows t row u v e = (guarded _ _ v e).1

add_result-rows :
    (t : Tables) (row : ResultRow) (u v : Tables)
    → add_result t row u ≡ some v
    → v ≡ record u { results = u.results ++ row ∷ [] }
unfolding add_result
add_result-rows t row u v e = (guarded _ _ v e).1

-- What one row's insert does, all rows' does.
module _ {Row : Type 0} (add : Row → Tables → Option Tables) (extend : List Row → Tables → Tables)
    (extend_nil : (u : Tables) → u ≡ extend [] u)
    (extend_one : (row : Row) (rows : List Row) (u v : Tables)
      → add row u ≡ some v
      → extend rows v ≡ extend (row ∷ rows) u) where
  pub add_rows-extend :
      (rows : List Row) (u v : Tables) → add_rows add rows u ≡ some v → v ≡ extend rows u
  unfolding add_rows
  add_rows-extend [] u v e = sym (cc e) ∙ extend_nil u
  add_rows-extend (row ∷ rows) u v e = by_first (λ x. add_rows-extend rows x v) (add row u) refl e
    where
      by_first :
          ((x : Tables) → add_rows add rows x ≡ some v → v ≡ extend rows x)
          → (r : Option Tables) → add row u ≡ r
          → (elim r as (λ _. Option Tables) [ none ↦ none | some x ↦ add_rows add rows x ]) ≡ some v
          → v ≡ extend (row ∷ rows) u
      by_first ih none first e = absurd (cc e)
      by_first ih (some x) first e = ih x e ∙ extend_one row rows u x first

pub add_options-rows :
    (t : Tables) (rows : List OptionRow) (u v : Tables)
    → add_rows (add_option t) rows u ≡ some v
    → v ≡ record u { options = u.options ++ rows }
add_options-rows t = add_rows-extend (add_option t) extend nil_lem one_lem
  where
    extend : List OptionRow → Tables → Tables
    extend rows u = record u { options = u.options ++ rows }

    nil_lem : (u : Tables) → u ≡ extend [] u
    nil_lem u = ap (λ o. record u { options = o }) (sym (append-nil u.options))

    one_lem :
        (row : OptionRow) (rows : List OptionRow) (u v : Tables)
        → add_option t row u ≡ some v
        → extend rows v ≡ extend (row ∷ rows) u
    one_lem row rows u v e =
        ap (extend rows) (add_option-rows t row u v e)
        ∙ ap (λ o. record u { options = o }) (append_assoc u.options (row ∷ []) rows)

pub add_results-rows :
    (t : Tables) (rows : List ResultRow) (u v : Tables)
    → add_rows (add_result t) rows u ≡ some v
    → v ≡ record u { results = u.results ++ rows }
add_results-rows t = add_rows-extend (add_result t) extend nil_lem one_lem
  where
    extend : List ResultRow → Tables → Tables
    extend rows u = record u { results = u.results ++ rows }

    nil_lem : (u : Tables) → u ≡ extend [] u
    nil_lem u = ap (λ o. record u { results = o }) (sym (append-nil u.results))

    one_lem :
        (row : ResultRow) (rows : List ResultRow) (u v : Tables)
        → add_result t row u ≡ some v
        → extend rows v ≡ extend (row ∷ rows) u
    one_lem row rows u v e =
        ap (extend rows) (add_result-rows t row u v e)
        ∙ ap (λ o. record u { results = o }) (append_assoc u.results (row ∷ []) rows)
