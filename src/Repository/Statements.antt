-- ===== src/Repository/Statements.antt =====
-- What one statement (internal/repository/poll.go) does to the tables, wherever its round trip is
-- lost.
use voting_service.Base.{
  String, Bool, true, false, ◌≡◌, refl, sym, ap, ◌∙◌, ◌⊎◌, inl, inr, Option, none, some, List, [],
  ◌∷◌, if◌then◌else◌,
}
use voting_service.Base.Int.{ℤ}
use voting_service.Redis.{Link, up, request_lost, reply_lost}
use voting_service.Repository.Tables.{PollRow, Tables}
use voting_service.Repository.Queries.{upsert}
use voting_service.Repository.Poll.{Db, Session, query, exec}
use voting_service.Repository.Atomic.{at}
use voting_service.Repository.Create.{some-injective}

-- A query changes no table.
pub query-keeps :
    {A : Type 0} (read : Tables → Option A) (t : Tables) (s : Session) (links : List Link)
    → (query read (at t s links)).1.tables ≡ t
unfolding query
query-keeps read t s [] = refl
query-keeps read t s (up ∷ rest) = refl
query-keeps read t s (request_lost e ∷ rest) = refl
query-keeps read t s (reply_lost e ∷ rest) = refl

pub query-tables :
    {A : Type 0} (read : Tables → Option A) (w : Db) → (query read w).1.tables ≡ w.tables
query-tables read w = query-keeps read w.tables w.session w.links

-- A statement changes the tables as it says, or not at all.
pub exec-keeps :
    {A : Type 0} (ran : Option (A × Tables)) (t : Tables) (s : Session) (links : List Link)
    → ((exec (λ _. ran) (at t s links)).1.tables ≡ t)
      ⊎ ((a : A) × (u : Tables) × (ran ≡ some (a, u))
          × ((exec (λ _. ran) (at t s links)).1.tables ≡ u))
unfolding exec
exec-keeps none t s [] = inl refl
exec-keeps (some (a, u)) t s [] = inr (a, u, refl, refl)
exec-keeps none t s (up ∷ rest) = inl refl
exec-keeps (some (a, u)) t s (up ∷ rest) = inr (a, u, refl, refl)
exec-keeps ran t s (request_lost e ∷ rest) = inl refl
exec-keeps none t s (reply_lost e ∷ rest) = inl refl
exec-keeps (some (a, u)) t s (reply_lost e ∷ rest) = inr (a, u, refl, refl)

pub exec-tables :
    {A : Type 0} (run : Tables → Option (A × Tables)) (w : Db)
    → ((exec run w).1.tables ≡ w.tables)
      ⊎ ((a : A) × (t : Tables) × (run w.tables ≡ some (a, t)) × ((exec run w).1.tables ≡ t))
unfolding exec
exec-tables run w = exec-keeps (run w.tables) w.tables w.session w.links

pub none-else :
    {A : Type 0} (test : Bool) (o : Option A) (a : A)
    → (if test then none else o) ≡ some a
    → o ≡ some a
none-else true o a e = absurd (cc e)
none-else false o a e = e

pub either-polls :
    (test : Bool) (a b u : Tables) (rows : List PollRow)
    → a.polls ≡ rows
    → b.polls ≡ rows
    → (if test then some a else some b) ≡ some u
    → rows ≡ u.polls
either-polls true a b u rows one two e = sym one ∙ ap (λ t. t.polls) (some-injective e)
either-polls false a b u rows one two e = sym two ∙ ap (λ t. t.polls) (some-injective e)

pub upsert-polls :
    (id option : String) (votes : ℤ) (t u : Tables)
    → upsert id option votes t ≡ some u
    → t.polls ≡ u.polls
unfolding upsert
upsert-polls id option votes t u e = either-polls _ _ _ u t.polls refl refl (none-else _ _ u e)
