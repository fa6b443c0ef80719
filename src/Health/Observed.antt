-- ===== src/Health/Observed.antt =====
-- What a report of the readiness probe (internal/health/health.go) says.
use mathlib.Core.List.{append-nil, append_assoc}
use voting_service.Base.{
  ℕ, Bool, true, false, not, ◌&&◌, ◌||◌, ◌≡◌, refl, sym, ap, ◌∙◌, List, [], ◌∷◌, ◌++◌,
  if◌then◌else◌, arith,
}
use voting_service.Base.Int.{ℤ, ltb_ℤ}
use voting_service.Entity.Errors.{Result, ok, err}
use voting_service.SyncService.Sync.{sub_time}
use voting_service.Health.{
  Dependency, DependencyStatus, Report, Cached, account, check_all, at_start, evaluate,
  ready_status,
}

-- A dependency that keeps the service from being ready.
abbrev pub blocks : DependencyStatus → Bool
blocks s = s.critical && not s.healthy

unfoldable pub any_blocks : List DependencyStatus → Bool
any_blocks [] = false
any_blocks (s ∷ statuses) = blocks s || any_blocks statuses

unfoldable pub all_healthy : List DependencyStatus → Bool
all_healthy [] = true
all_healthy (s ∷ statuses) = s.healthy && all_healthy statuses

any_blocks-append :
    (xs : List DependencyStatus) (s : DependencyStatus)
    → any_blocks (xs ++ s ∷ []) ≡ (any_blocks xs || blocks s)
unfolding any_blocks
any_blocks-append [] s = ground arith
any_blocks-append (x ∷ xs) s = ground (arith, any_blocks-append xs s)

all_healthy-append :
    (xs : List DependencyStatus) (s : DependencyStatus)
    → all_healthy (xs ++ s ∷ []) ≡ (all_healthy xs && s.healthy)
unfolding all_healthy
all_healthy-append [] s = ground arith
all_healthy-append (x ∷ xs) s = ground (arith, all_healthy-append xs s)

-- What a report says of its dependencies.
abbrev pub IsCoherent : Report → Type 0
IsCoherent r =
    (r.ready ≡ not (any_blocks r.dependencies))
    × (r.status ≡ (
        if any_blocks r.dependencies
        then "unready"
        else if all_healthy r.dependencies
        then "ready"
        else "degraded"))

account-IsCoherent :
    {W : Type 0} (d : Dependency W) (r : Result (Unit {0})) (current : Report)
    → IsCoherent current
    → IsCoherent (account d r current)
unfolding account
account-IsCoherent d (ok _) current (one, two) =
    rw (any_blocks-append current.dependencies _, all_healthy-append current.dependencies _)
      (ground (arith, one, two))
account-IsCoherent d (err e) current (one, two) =
    rw (any_blocks-append current.dependencies _, all_healthy-append current.dependencies _)
      (ground (arith, one, two))

-- What the checks find, one after the other.
unfoldable pub status_of : {W : Type 0} → Dependency W → Result (Unit {0}) → DependencyStatus
status_of d (ok _) = record { name = d.name; healthy = true; critical = d.critical; error = "" }
status_of d (err e) = record {
  name = d.name;
  healthy = false;
  critical = d.critical;
  error = "unreachable";
}

unfoldable pub observed : {W : Type 0} → List (Dependency W) → W → List DependencyStatus
observed [] w = []
observed (d ∷ dependencies) w = status_of d ((d.check w).0) ∷ observed dependencies ((d.check w).1)

account-status :
    {W : Type 0} (d : Dependency W) (r : Result (Unit {0})) (current : Report)
    → (account d r current).dependencies ≡ current.dependencies ++ status_of d r ∷ []
unfolding account status_of
account-status d (ok _) current = refl
account-status d (err e) current = refl

check_all-observed :
    {W : Type 0} (dependencies : List (Dependency W)) (current : Report) (w : W)
    → IsCoherent current
    → ((check_all dependencies current w).0.dependencies
        ≡ current.dependencies ++ observed dependencies w)
      × IsCoherent ((check_all dependencies current w).0)
unfolding check_all observed
check_all-observed [] current w good = (sym (append-nil current.dependencies), good)
check_all-observed (d ∷ dependencies) current w good =
    let r = (d.check w).0 in
    let (listed, coherent) =
      check_all-observed dependencies (account d r current) ((d.check w).1)
        (account-IsCoherent d r current good) in
    (
      listed
          ∙ (ap (λ l. l ++ observed dependencies ((d.check w).1)) (account-status d r current)
              ∙ append_assoc current.dependencies (status_of d r ∷ [])
                  (observed dependencies ((d.check w).1))),
      coherent,
    )

at_start-IsCoherent : IsCoherent at_start
unfolding any_blocks all_healthy
at_start-IsCoherent = (refl, refl)

ready-status :
    (r : Report)
    → r.ready ≡ not (any_blocks r.dependencies)
    → ready_status r ≡ (if any_blocks r.dependencies then 503 else 200)
unfolding ready_status
ready-status r e = rw e (by_test (any_blocks r.dependencies))
  where
    by_test :
        (test : Bool)
        → ◌≡◌ {A = ℕ} (if not (not test) then 503 else 200) (if test then 503 else 200)
    by_test true = refl
    by_test false = refl

-- A report that is not from the cache lists what the check of every dependency finds, in order: it is
-- unready, with status 503, where a critical one fails, and otherwise has status 200, and is degraded
-- where another one fails. It is what is cached.
pub evaluate-observed :
    {W : Type 0} (cache_for : ℤ) (dependencies : List (Dependency W)) (since now : ℕ)
    (cached : Cached) (w : W)
    → ltb_ℤ (sub_time since cached.cached_at) cache_for ≡ false
    → ((evaluate cache_for dependencies since now cached w).0.dependencies
        ≡ observed dependencies w)
      × (ready_status ((evaluate cache_for dependencies since now cached w).0)
          ≡ (if any_blocks (observed dependencies w) then 503 else 200))
      × ((evaluate cache_for dependencies since now cached w).0.status ≡ (
          if any_blocks (observed dependencies w)
          then "unready"
          else if all_healthy (observed dependencies w)
          then "ready"
          else "degraded"))
      × ((evaluate cache_for dependencies since now cached w).1.report
          ≡ (evaluate cache_for dependencies since now cached w).0)
unfolding evaluate
evaluate-observed cache_for dependencies since now cached w expired =
    rw (expired, evaluate) (listed, ready_lem, status, refl)
  where
    start : IsCoherent at_start
    start = at_start-IsCoherent

    listed : (check_all dependencies at_start w).0.dependencies ≡ observed dependencies w
    listed = (check_all-observed dependencies at_start w start).0

    coherent : IsCoherent ((check_all dependencies at_start w).0)
    coherent = (check_all-observed dependencies at_start w start).1

    ready_lem :
        ready_status ((check_all dependencies at_start w).0)
        ≡ (if any_blocks (observed dependencies w) then 503 else 200)
    ready_lem = rw (sym listed) (ready-status _ coherent.0)

    status : (check_all dependencies at_start w).0.status ≡ (
        if any_blocks (observed dependencies w)
        then "unready"
        else if all_healthy (observed dependencies w)
        then "ready"
        else "degraded")
    status = rw (sym listed) coherent.1
