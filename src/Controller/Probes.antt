-- ===== src/Controller/Probes.antt =====
-- The handlers of the probes (internal/health/health.go); `evaluate` of the checker is an argument.
use voting_service.Health.{Report, ready_status}
use voting_service.HttpJson.{value, write_json}
use voting_service.Middleware.Chain.{Handler}
use voting_service.Controller.Handlers.{Answer, live_answer, ready_answer}

-- `Checker.Live` and `Checker.Ready`.
unfoldable pub live : {W Float : Type 0} → Handler (Answer Float) W
live r (w, world) = (write_json 200 (value (live_answer "alive")) w, world)

unfoldable pub ready : {W Float : Type 0} → (W → Report × W) → Handler (Answer Float) W
ready evaluate r (w, world) =
    let (current, world') = evaluate world in
    (write_json (ready_status current) (value (ready_answer current)) w, world')
