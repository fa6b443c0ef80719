-- ===== src/SyncService/Chains.antt =====
-- Chains of actions, as internal/service/sync.go writes them: `if err != nil { return … }` after each
-- call.
use voting_service.Base.{◌≡◌, refl, String}
use voting_service.Entity.Errors.{Error, Result, ok, err}
use voting_service.Ports.{Action, lift, ◌>>=◌, wrapping}

pub err-ne-ok {ℓ} : {A : Type ℓ} {a : A} {e : Error} → ¬ (err e ≡ ok a)
err-ne-ok h = cc

-- A predicate holds after two actions if it holds after the first, which may fail, and after the
-- second where the first succeeds.
pub bind_world :
    {W A B : Type 0} (m : Action W A) (f : A → Action W B) (w : W) (P : W → Type 0)
    → P (m w).1
    → ((a : A) → (m w).0 ≡ ok a → P (f a (m w).1).1)
    → P ((m >>= f) w).1
bind_world {W} {A} {B} m f w P stop go = by_result (m w).0 go
  where
    by_result :
        (r : Result A) → ((a : A) → r ≡ ok a → P (f a (m w).1).1) → P ((lift r >>= f) (m w).1).1
    by_result (ok a) go = go a refl
    by_result (err e) go = stop

-- A predicate holds after two actions that succeed if it holds after the second where each succeeds.
pub bind_ok_world :
    {W A B : Type 0} (m : Action W A) (f : A → Action W B) (w : W) (P : W → Type 0) (b : B)
    → ((m >>= f) w).0 ≡ ok b
    → ((a : A) → (m w).0 ≡ ok a → (f a (m w).1).0 ≡ ok b → P (f a (m w).1).1)
    → P ((m >>= f) w).1
bind_ok_world {W} {A} {B} m f w P b = by_result (m w).0
  where
    by_result :
        (r : Result A)
        → ((lift r >>= f) (m w).1).0 ≡ ok b
        → ((a : A) → r ≡ ok a → (f a (m w).1).0 ≡ ok b → P (f a (m w).1).1)
        → P ((lift r >>= f) (m w).1).1
    by_result (ok a) done go = go a refl done
    by_result (err e) done go = absurd (err-ne-ok done)

pub wrapping_world :
    {W A : Type 0} (context : String) (m : Action W A) (w : W) → (wrapping context m w).1 ≡ (m w).1
wrapping_world {W} {A} context m w = by_result (m w).0
  where
    by_result : (r : Result A) → (wrapping context (lift r) (m w).1).1 ≡ (m w).1
    by_result (ok a) = refl
    by_result (err e) = refl

pub wrapping_ok :
    {W A : Type 0} (context : String) (m : Action W A) (w : W) (a : A)
    → (wrapping context m w).0 ≡ ok a
    → (m w).0 ≡ ok a
wrapping_ok {W} {A} context m w a = by_result (m w).0
  where
    by_result : (r : Result A) → (wrapping context (lift r) (m w).1).0 ≡ ok a → r ≡ ok a
    by_result (ok b) done = done
    by_result (err e) done = absurd (err-ne-ok done)
