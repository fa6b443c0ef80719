-- ===== src/Health.antt =====
-- The probes (internal/health/health.go). A check is a call on the world that may fail; the times of
-- `time.Since` and `time.Now` in a call are arguments, in nanoseconds since Go's zero time.
pub mod Observed
use mathlib.Core.List.{append-nil, append_assoc}
use voting_service.Base.{
  ℕ, String, Bool, true, false, not, ◌&&◌, ◌||◌, ◌≡◌, refl, sym, ap, ◌∙◌, List, [], ◌∷◌, ◌++◌,
  if◌then◌else◌, arith,
}
use voting_service.Base.Int.{ℤ, ltb_ℤ}
use voting_service.Entity.Errors.{Result, ok, err}
use voting_service.Ports.{Action}
use voting_service.SyncService.Sync.{sub_time}

-- `Dependency`.
pub record Dependency (W : Type 0) : Type 0 where
  pub name : String
  pub critical : Bool
  pub check : Action W (Unit {0})

pub record DependencyStatus : Type 0 where
  pub name : String
  pub healthy : Bool
  pub critical : Bool
  pub error : String

pub record Report : Type 0 where
  pub status : String
  pub dependencies : List DependencyStatus
  pub ready : Bool

-- The mutable part of `Checker`.
pub record Cached : Type 0 where
  pub report : Report
  pub cached_at : ℕ

-- The body of the loop of `evaluate`, after the check.
unfoldable pub account : {W : Type 0} → Dependency W → Result (Unit {0}) → Report → Report
account d (ok _) current = record current {
  dependencies =
      current.dependencies
      ++ record { name = d.name; healthy = true; critical = d.critical; error = "" } ∷ [];
}
account d (err e) current = record {
  status = if d.critical then "unready" else if current.ready then "degraded" else current.status;
  dependencies =
      current.dependencies
      ++ record { name = d.name; healthy = false; critical = d.critical; error = "unreachable" }
        ∷ [];
  ready = if d.critical then false else current.ready;
}

unfoldable pub check_all : {W : Type 0} → List (Dependency W) → Report → W → Report × W
check_all [] current w = (current, w)
check_all (d ∷ dependencies) current w =
    let (r, w') = d.check w in check_all dependencies (account d r current) w'

abbrev pub at_start : Report
at_start = record { status = "ready"; dependencies = []; ready = true }

-- `evaluate`: the report, and what is cached.
unfoldable pub evaluate :
    {W : Type 0} → ℤ → List (Dependency W) → ℕ → ℕ → Cached → W → Report × Cached × W
evaluate cache_for dependencies since now cached w =
    if ltb_ℤ (sub_time since cached.cached_at) cache_for
    then (cached.report, cached, w)
    else (let (current, w') = check_all dependencies at_start w in
        (current, record { report = current; cached_at = now }, w'))

-- The status of `Ready`.
unfoldable pub ready_status : Report → ℕ
ready_status current = if not current.ready then 503 else 200
