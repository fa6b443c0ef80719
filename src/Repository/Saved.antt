-- ===== src/Repository/Saved.antt =====
-- What `SaveResults` (internal/repository/poll.go) leaves in the table of results.
use mathlib.Core.Path.{subst}
use voting_service.Base.{
  String, Bool, true, false, ◌&&◌, ◌||◌, ◌≡◌, refl, sym, ap, ◌∙◌, Option, none, some, List, [], ◌∷◌,
  ◌++◌, if◌then◌else◌, str_eq, contains, arith, str_eq_refl,
}
use voting_service.Base.Int.{ℤ, ltb_ℤ, ◌≤ℤ◌}
use voting_service.Entity.Errors.{Result, ok, err}
use voting_service.Ports.{Counts}
use voting_service.Redis.{Link, up, request_lost, reply_lost}
use voting_service.Repository.Tables.{ResultRow, Tables, has_result}
use voting_service.Repository.Queries.{raise_votes, upsert, upsert_all}
use voting_service.Repository.Poll.{Db, Session, exec, failing}
use voting_service.Repository.Calls.{save_results, run_upsert, calling}
use voting_service.Repository.Atomic.{at}
use voting_service.Repository.Create.{some-bind, some-injective}
use voting_service.Repository.Statements.{none-else}

-- The votes of an option in a poll.
unfoldable pub find_votes : String → String → List ResultRow → Option ℤ
find_votes p o [] = none
find_votes p o (row ∷ rows) =
    if str_eq row.poll_id p && str_eq row.option_id o then some row.votes else find_votes p o rows

-- At least so many votes.
abbrev pub AtLeast : ℤ → Option ℤ → Type 0
AtLeast v found = (v' : ℤ) × (found ≡ some v') × (v ≤ℤ v')

-- No result is lower.
abbrev pub Grown : List ResultRow → List ResultRow → Type 0
Grown rows rows' =
    (p o : String) (v : ℤ) → find_votes p o rows ≡ some v → AtLeast v (find_votes p o rows')

Grown-refl : (rows : List ResultRow) → Grown rows rows
Grown-refl rows p o v e = (v, e, omega arith)

Grown-trans : (a b c : List ResultRow) → Grown a b → Grown b c → Grown a c
Grown-trans a b c one two p o v e =
    let (v', e', l) = one p o v e in
    let (v'', e'', l') = two p o v' e' in (v'', e'', omega (arith, l, l'))

abbrev higher : ℤ → ResultRow → ResultRow
higher n row = record row { votes = n }

cons-Grown :
    (n : ℤ) (row : ResultRow) (rows more : List ResultRow)
    → row.votes ≤ℤ n
    → Grown rows more
    → Grown (row ∷ rows) (higher n row ∷ more)
unfolding find_votes
cons-Grown n row rows more raised rest p o v =
    by_key (str_eq row.poll_id p && str_eq row.option_id o) (rest p o v)
  where
    by_key :
        (same : Bool)
        → (find_votes p o rows ≡ some v → AtLeast v (find_votes p o more))
        → (if same then some row.votes else find_votes p o rows) ≡ some v
        → AtLeast v (if same then some n else find_votes p o more)
    by_key true ih e = (n, refl, subst (λ x. x ≤ℤ n) (some-injective e) raised)
    by_key false ih e = ih e

greatest_le : (a b : ℤ) → (a ≤ℤ (if ltb_ℤ a b then b else a)) × (b ≤ℤ (if ltb_ℤ a b then b else a))
greatest_le a b = ground arith

raise_votes-Grown :
    (p o : String) (v : ℤ) (rows : List ResultRow) → Grown rows (raise_votes p o v rows)
unfolding raise_votes
raise_votes-Grown p o v [] = Grown-refl []
raise_votes-Grown p o v (row ∷ rows) =
    by_key (str_eq row.poll_id p && str_eq row.option_id o) (raise_votes-Grown p o v rows)
  where
    by_key :
        (same : Bool)
        → Grown rows (raise_votes p o v rows)
        → Grown (row ∷ rows) (
            if same
            then higher (if ltb_ℤ row.votes v then v else row.votes) row ∷ raise_votes p o v rows
            else row ∷ raise_votes p o v rows)
    by_key true ih = cons-Grown _ row rows _ ((greatest_le row.votes v).0) ih
    by_key false ih = cons-Grown row.votes row rows _ (omega arith) ih

raise_votes-AtLeast :
    (p o : String) (v : ℤ) (rows : List ResultRow)
    → has_result p o rows ≡ true
    → AtLeast v (find_votes p o (raise_votes p o v rows))
unfolding raise_votes find_votes has_result
raise_votes-AtLeast p o v [] e = absurd (cc e)
raise_votes-AtLeast p o v (row ∷ rows) e =
    by_key (str_eq row.poll_id p && str_eq row.option_id o) refl (raise_votes-AtLeast p o v rows) e
  where
    by_key :
        (same : Bool)
        → (str_eq row.poll_id p && str_eq row.option_id o) ≡ same
        → (has_result p o rows ≡ true → AtLeast v (find_votes p o (raise_votes p o v rows)))
        → (same || has_result p o rows) ≡ true
        → AtLeast v (
            find_votes p o (
              if same
              then higher (if ltb_ℤ row.votes v then v else row.votes) row ∷ raise_votes p o v rows
              else row ∷ raise_votes p o v rows))
    by_key true key ih e = (_, rw key refl, (greatest_le row.votes v).1)
    by_key false key ih e = rw key (ih e)

append-Grown : (rows more : List ResultRow) → Grown rows (rows ++ more)
unfolding find_votes
append-Grown [] more p o v e = absurd (cc e)
append-Grown (row ∷ rows) more p o v e =
    cons-Grown row.votes row rows (rows ++ more) (omega arith) (append-Grown rows more) p o v e

pub append-AtLeast :
    (p o : String) (v : ℤ) (rows : List ResultRow)
    → has_result p o rows ≡ false
    → find_votes p o (rows ++ record { poll_id = p; option_id = o; votes = v } ∷ []) ≡ some v
unfolding find_votes has_result
append-AtLeast p o v [] e = rw (str_eq_refl p, str_eq_refl o) refl
append-AtLeast p o v (row ∷ rows) e =
    let other : (str_eq row.poll_id p && str_eq row.option_id o) ≡ false = ground (arith, e) in
    rw other (append-AtLeast p o v rows (ground (arith, e)))

-- A row of the upsert: nothing is lower, and its count is reached.
upsert-Grown :
    (p o : String) (v : ℤ) (t u : Tables)
    → upsert p o v t ≡ some u
    → Grown t.results u.results × AtLeast v (find_votes p o u.results)
unfolding upsert
upsert-Grown p o v t u e = by_row (has_result p o t.results) refl (none-else _ _ u e)
  where
    by_row :
        (there : Bool)
        → has_result p o t.results ≡ there
        → (if there
            then some (record t { results = raise_votes p o v t.results })
            else some (record t {
              results = t.results ++ record { poll_id = p; option_id = o; votes = v } ∷ [];
            }))
          ≡ some u
        → Grown t.results u.results × AtLeast v (find_votes p o u.results)
    by_row true there e =
        subst (λ x. Grown t.results x.results × AtLeast v (find_votes p o x.results))
          (some-injective e)
          (raise_votes-Grown p o v t.results, raise_votes-AtLeast p o v t.results there)
    by_row false there e =
        subst (λ x. Grown t.results x.results × AtLeast v (find_votes p o x.results))
          (some-injective e)
          (append-Grown t.results _, (v, append-AtLeast p o v t.results there, omega arith))

-- The count of every option is reached.
abbrev pub AllReached : (String → Option String) → String → Counts → List ResultRow → Type 0
AllReached uuid p [] rows = Unit
AllReached uuid p ((option, v) ∷ counts) rows =
    ((o : String) × (uuid option ≡ some o) × AtLeast v (find_votes p o rows))
    × AllReached uuid p counts rows

module _ (uuid : String → Option String) where
  pub upsert_all-AllReached :
      (p : String) (seen : List String) (counts : Counts) (t u : Tables)
      → upsert_all uuid p seen counts t ≡ some u
      → Grown t.results u.results × AllReached uuid p counts u.results
  unfolding upsert_all
  upsert_all-AllReached p seen [] t u e =
      (subst (λ x. Grown t.results x.results) (some-injective e) (Grown-refl t.results), tt)
  upsert_all-AllReached p seen ((option, v) ∷ counts) t u e =
      let (o, known, e1) = some-bind (uuid option) _ u e in
      let (x, put, e2) = some-bind (upsert p o v t) _ u (none-else (contains o seen) _ u e1) in
      let (grown, written) = upsert-Grown p o v t x put in
      let (v', found, reached) = written in
      let (more, all) = upsert_all-AllReached p (o ∷ seen) counts x u e2 in
      let (v'', found', reached') = more p o v' found in
      (
        Grown-trans t.results x.results u.results grown more,
        ((o, known, (v'', found', omega (arith, reached, reached'))), all),
      )

-- A statement that is answered has run.
exec-ran :
    {A : Type 0} (ran : Option (A × Tables)) (t : Tables) (s : Session) (links : List Link) (a : A)
    → (exec (λ _. ran) (at t s links)).0 ≡ ok a
    → (b : A) × (u : Tables) × (ran ≡ some (b, u)) × ((exec (λ _. ran) (at t s links)).1.tables ≡ u)
unfolding exec
exec-ran none t s [] a e = absurd (cc e)
exec-ran (some (b, u)) t s [] a e = (b, u, refl, refl)
exec-ran none t s (up ∷ rest) a e = absurd (cc e)
exec-ran (some (b, u)) t s (up ∷ rest) a e = (b, u, refl, refl)
exec-ran ran t s (request_lost c ∷ rest) a e = absurd (cc e)
exec-ran none t s (reply_lost c ∷ rest) a e = absurd (cc e)
exec-ran (some (b, u)) t s (reply_lost c ∷ rest) a e = absurd (cc e)

failing-ok :
    {A : Type 0} (context message : String) (r : Result A) (a : A)
    → failing context message r ≡ ok a
    → r ≡ ok a
unfolding failing
failing-ok context message (ok b) a e = e
failing-ok context message (err c) a e = absurd (cc e)

-- Results that are saved are durable and never lower: where saving the counts of a poll succeeds,
-- every result that was in the database is there and not lower, and the result of each option of
-- the counts is there and at least its count, under the canonical identifiers.
pub save_results-AllReached :
    (uuid : String → Option String) (id p : String) (counts : Counts) (w : Db)
    → uuid id ≡ some p
    → (save_results uuid id counts w).0 ≡ ok tt
    → Grown w.tables.results (save_results uuid id counts w).1.tables.results
      × AllReached uuid p counts (save_results uuid id counts w).1.tables.results
unfolding save_results calling run_upsert exec
save_results-AllReached uuid id p [] w known e = (Grown-refl w.tables.results, tt)
save_results-AllReached uuid id p (count ∷ counts) w known e =
    let (_, u, ran, left) =
      exec-ran (run_upsert uuid id (count ∷ counts) w.tables) w.tables w.session w.links tt
        (failing-ok _ _ _ tt e) in
    let (key, read, e1) = some-bind (uuid id) _ (tt, u) ran in
    let (x, put, same) =
      some-bind (upsert_all uuid key [] (count ∷ counts) w.tables) _ (tt, u) e1 in
    subst (λ rows. Grown w.tables.results rows × AllReached uuid p (count ∷ counts) rows)
      (ap (λ y. y.1.results) (some-injective same) ∙ ap (λ t. t.results) (sym left))
      (subst (λ k. Grown w.tables.results x.results × AllReached uuid k (count ∷ counts) x.results)
        (some-injective (sym read ∙ known))
        (upsert_all-AllReached uuid key [] (count ∷ counts) w.tables x put))
