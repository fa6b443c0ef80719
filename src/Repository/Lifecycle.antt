-- ===== src/Repository/Lifecycle.antt =====
-- The life of a poll's row under the calls of the services (internal/repository/poll.go and
-- `transition` of internal/service/poll.go).
use mathlib.Core.Path.{subst}
use voting_service.Base.{
  ℕ, ◌≤◌, String, Bool, true, false, ◌≡◌, refl, sym, ap, ◌∙◌, inl, inr, Option, none, some, List,
  [], ◌∷◌, ◌++◌, if◌then◌else◌, str_eq, contains, arith, str_eq_iff, Bool-cases,
}
use voting_service.Entity.Poll.{PollStatus, draft, active, finished}
use voting_service.Repository.Tables.{PollRow, poll_ok}
use voting_service.Repository.Queries.{update_rows, to_update, updated}

some-injective : {A : Type 0} {a b : A} → some a ≡ some b → a ≡ b
some-injective e = cc

unfoldable pub find_poll : String → List PollRow → Option PollRow
find_poll id [] = none
find_poll id (row ∷ rows) = if str_eq row.id id then some row else find_poll id rows

-- The place of a status in a poll's life.
unfoldable pub rank : PollStatus → ℕ
rank s = if str_eq s finished then 2 else if str_eq s active then 1 else 0

-- A later form of a row: only the status and the time of its end may differ, the status is not an
-- earlier one, and a finished row is the same.
abbrev pub Later : PollRow → PollRow → Type 0
Later r r' =
    (updated r'.status r'.finished_at r ≡ r')
    × (rank r.status ≤ rank r'.status)
    × (rank r.status ≡ 2 → r ≡ r')

Later-refl : (r : PollRow) → Later r r
Later-refl r = (refl, omega arith, λ _. refl)

Later-trans : (a b c : PollRow) → Later a b → Later b c → Later a c
Later-trans a b c (e1, l1, f1) (e2, l2, f2) = (
  ap (updated c.status c.finished_at) e1 ∙ e2,
  omega (arith, l1, l2),
  λ h. f1 h ∙ f2 (ap (λ r. rank r.status) (sym (f1 h)) ∙ h),
)

-- Every poll that is there is there later.
abbrev pub Onward : List PollRow → List PollRow → Type 0
Onward rows rows' =
    (id : String) (r : PollRow)
    → find_poll id rows ≡ some r
    → (r' : PollRow) × (find_poll id rows' ≡ some r') × Later r r'

pub Onward-refl : (rows : List PollRow) → Onward rows rows
Onward-refl rows id r e = (r, e, Later-refl r)

pub Onward-trans :
    (rows rows' rows'' : List PollRow)
    → Onward rows rows'
    → Onward rows' rows''
    → Onward rows rows''
Onward-trans rows rows' rows'' one two id r e =
    let (r', e', l) = one id r e in
    let (r'', e'', l') = two id r' e' in (r'', e'', Later-trans r r' r'' l l')

pub append-Onward : (rows more : List PollRow) → Onward rows (rows ++ more)
unfolding find_poll
append-Onward [] more id r e = absurd (cc e)
append-Onward (row ∷ rows) more id r e = by_key (str_eq row.id id) (append-Onward rows more id r) e
  where
    by_key :
        (same : Bool)
        → (find_poll id rows ≡ some r
            → (r' : PollRow) × (find_poll id (rows ++ more) ≡ some r') × Later r r')
        → (if same then some row else find_poll id rows) ≡ some r
        → (r' : PollRow) × ((if same then some row else find_poll id (rows ++ more)) ≡ some r')
          × Later r r'
    by_key true ih e = (r, e, Later-refl r)
    by_key false ih e = ih e

-- An update that only moves a row forward.
abbrev pub Forward : List PollStatus → PollStatus → Type 0
Forward from to = (s : PollStatus) → contains s from ≡ true → (rank s ≤ rank to) × (rank s ≡ 2 → ⊥)

Forward-nil : (to : PollStatus) → Forward [] to
unfolding contains
Forward-nil to s e = absurd (cc e)

Forward-cons :
    (a : PollStatus) (from : List PollStatus) (to : PollStatus)
    → (rank a ≤ rank to) × (rank a ≡ 2 → ⊥)
    → Forward from to
    → Forward (a ∷ from) to
unfolding contains
Forward-cons a from to first rest s e = elim (Bool-cases (str_eq s a)) [
  | inl same ↦
      subst (λ x. (rank x ≤ rank to) × (rank x ≡ 2 → ⊥)) (sym ((str_eq_iff s a).0 same)) first
  | inr other ↦ rest s (ground (arith, e, other))
]

pub activate-Forward : Forward (draft ∷ []) active
unfolding rank str_eq
activate-Forward =
    Forward-cons draft [] active (omega arith, λ e. omega (arith, e)) (Forward-nil active)

pub finish-Forward : Forward (draft ∷ active ∷ []) finished
unfolding rank str_eq
finish-Forward =
    Forward-cons draft _ finished (omega arith, λ e. omega (arith, e))
      (Forward-cons active [] finished (omega arith, λ e. omega (arith, e)) (Forward-nil finished))

cons-Onward :
    (s : PollStatus) (at : Option ℕ) (row : PollRow) (rows more : List PollRow)
    → Later row (updated s at row)
    → Onward rows more
    → Onward (row ∷ rows) (updated s at row ∷ more)
unfolding find_poll
cons-Onward s at row rows more later rest id r = by_key (str_eq row.id id) (rest id r)
  where
    by_key :
        (same : Bool)
        → (find_poll id rows ≡ some r → (r' : PollRow) × (find_poll id more ≡ some r') × Later r r')
        → (if same then some row else find_poll id rows) ≡ some r
        → (r' : PollRow) × ((if same then some (updated s at row) else find_poll id more) ≡ some r')
          × Later r r'
    by_key true ih e =
        (updated s at row, refl, subst (λ x. Later x (updated s at row)) (some-injective e) later)
    by_key false ih e = ih e

-- The rows after the `UPDATE` are later forms of those before.
module _ (key : String) (from : List PollStatus) (to : PollStatus) (at : Option ℕ) where
  row-Onward :
      (row : PollRow) (rows : List PollRow) (hit good : Bool) (rest : Option (List PollRow))
      (rows' : List PollRow)
      → ((more : List PollRow) → rest ≡ some more → Onward rows more)
      → (hit ≡ true → (rank row.status ≤ rank to) × (rank row.status ≡ 2 → ⊥))
      → (if hit
          then (if good
              then elim rest as (λ _. Option (List PollRow)) [
                | none ↦ none
                | some more ↦ some (updated to at row ∷ more)
              ]
              else none)
          else elim rest as (λ _. Option (List PollRow)) [
            | none ↦ none
            | some more ↦ some (row ∷ more)
          ])
        ≡ some rows'
      → Onward (row ∷ rows) rows'
  row-Onward row rows true true none rows' ih moved e = absurd (cc e)
  row-Onward row rows true true (some more) rows' ih moved e =
      let (up, last) = moved refl in
      subst (Onward (row ∷ rows)) (some-injective e)
        (cons-Onward to at row rows more (refl, up, λ h. absurd (last h)) (ih more refl))
  row-Onward row rows true false rest rows' ih moved e = absurd (cc e)
  row-Onward row rows false good none rows' ih moved e = absurd (cc e)
  row-Onward row rows false good (some more) rows' ih moved e =
      subst (Onward (row ∷ rows)) (some-injective e)
        (cons-Onward row.status row.finished_at row rows more (Later-refl row) (ih more refl))

  pub update_rows-Onward :
      (rows rows' : List PollRow)
      → Forward from to
      → update_rows key from to at rows ≡ some rows'
      → Onward rows rows'
  unfolding update_rows
  update_rows-Onward [] rows' forward e = subst (Onward []) (some-injective e) (Onward-refl [])
  update_rows-Onward (row ∷ rows) rows' forward e =
      row-Onward row rows (to_update key from row) (poll_ok (updated to at row))
        (update_rows key from to at rows) rows' (λ more. update_rows-Onward rows more forward)
        (λ hit. forward row.status (ground (arith, hit))) e
