-- ===== src/Entity/Window.antt =====
-- When `CheckOpenAt` lets ballots in (internal/entity/poll.go).
use voting_service.Base.{
  ℕ, ◌≤◌, ◌<◌, ◌≡◌, ◌↔◌, none, some, arith, Option-cases, ◌⊎◌, inl, inr, str_eq_iff,
}
use voting_service.Entity.Errors.{Error, ok, err, code_of, conflict}
use voting_service.Entity.Poll.{Poll, active, check_open_at}

-- The poll is active, and `now` lies in its half-open window.
pub record IsOpenAt (p : Poll) (now : ℕ) : Type 0 where
  pub is_active : p.status ≡ active
  pub started : (start : ℕ) → p.starts_at ≡ some start → start ≤ now
  pub not_ended : (end : ℕ) → p.ends_at ≡ some end → now < end

-- A poll accepts ballots at a time exactly when its status is active, its start, if set, is not
-- later than that time, and its end, if set, is later than it.
pub check_open_at-IsOpenAt : (p : Poll) (now : ℕ) → (check_open_at p now ≡ ok tt) ↔ IsOpenAt p now
unfolding check_open_at
check_open_at-IsOpenAt p now = (
  λ h. record {
    is_active = ground (arith, str_eq_iff p.status active);
    started = λ start e. ground arith;
    not_ended = λ end e. ground arith;
  },
  λ o. not_refused o (Option-cases p.starts_at) (Option-cases p.ends_at),
)
  where
    not_refused :
        IsOpenAt p now
        → (p.starts_at ≡ none) ⊎ ((s : ℕ) × (p.starts_at ≡ some s))
        → (p.ends_at ≡ none) ⊎ ((t : ℕ) × (p.ends_at ≡ some t))
        → check_open_at p now ≡ ok tt
    not_refused o (inl s) (inl t) = ground (arith, o.is_active, str_eq_iff p.status active)
    not_refused o (inl s) (inr (t, et)) =
        ground (arith, o.is_active, str_eq_iff p.status active, o.not_ended t et)
    not_refused o (inr (s, es)) (inl t) =
        ground (arith, o.is_active, str_eq_iff p.status active, o.started s es)
    not_refused o (inr (s, es)) (inr (t, et)) =
        ground (arith, o.is_active, str_eq_iff p.status active, o.started s es, o.not_ended t et)

-- Every refusal of the window check is a conflict.
pub check_open_at_refusal :
    (p : Poll) (now : ℕ) (e : Error) → check_open_at p now ≡ err e → code_of e ≡ conflict
unfolding check_open_at code_of
check_open_at_refusal p now e h = ground (arith, str_eq_iff p.status active)
