-- ===== src/Middleware/Recorder.antt =====
-- The recorder of the access log (internal/middleware/logging.go), over `http.ResponseWriter`, which
-- sends the first final status it is given, or 200 before a body: net/http takes the statuses from 100
-- to 199, all but 101, as informational, sends each at once and waits for another.
use voting_service.Base.{
  Bool, not, ◌&&◌, ◌≤◌, ℕ, ◌+◌, false, ◌≡◌, ◌≢◌, refl, sym, ap, ◌∙◌, Option, none, some, List, [],
  ◌∷◌, ◌==◌, if◌then◌else◌, leb, arith,
}
use voting_service.Config.Settings.{Level, level_error, level_warn, level_info}

-- What a handler calls: `WriteHeader`, or `Write` of so many bytes.
pub data Call : Type 0 where
  head body : ℕ → Call

-- `recorder`, beside the final status that the writer under it has sent.
pub record Recorder : Type 0 where
  pub status : ℕ
  pub written : ℕ
  pub sent : Option ℕ

abbrev pub fresh_recorder : Recorder
fresh_recorder = record { status = 0; written = 0; sent = none }

-- A status after which net/http waits for the final one.
abbrev informational : ℕ → Bool
informational status = leb 100 status && leb status 199 && not (status == 101)

-- The final status that has been sent, after `WriteHeader` of the writer under it; its `Write`
-- sends 200.
abbrev pub send : ℕ → Option ℕ → Option ℕ
send status none = if informational status then none else some status
send status (some first) = some first

-- `recorder.WriteHeader` and `recorder.Write`.
unfoldable pub record_call : Call → Recorder → Recorder
record_call (head status) rec =
    if rec.status == 0 then record rec { status = status; sent = send status rec.sent } else rec
record_call (body n) rec = record {
  status = if rec.status == 0 then 200 else rec.status;
  written = rec.written + n;
  sent = send 200 rec.sent;
}

unfoldable pub record_calls : List Call → Recorder → Recorder
record_calls [] rec = rec
record_calls (call ∷ calls) rec = record_calls calls (record_call call rec)

-- `statusOrOK`.
unfoldable pub status_or_ok : Recorder → ℕ
status_or_ok rec = if rec.status == 0 then 200 else rec.status

-- The level of the access log.
unfoldable pub level_for : ℕ → Level
level_for status =
    if leb 500 status then level_error else if leb 400 status then level_warn else level_info

-- The status that the client gets: net/http sends 200 after a handler that has sent none.
unfoldable pub client_status : List Call → Option ℕ → ℕ
client_status [] none = 200
client_status [] (some status) = status
client_status (head status ∷ calls) sent = client_status calls (send status sent)
client_status (body n ∷ calls) sent = client_status calls (send 200 sent)

-- Every status that is written is a final one.
abbrev pub AllFinal : List Call → Type 0
AllFinal [] = Unit
AllFinal (head status ∷ calls) = (200 ≤ status) × AllFinal calls
AllFinal (body n ∷ calls) = AllFinal calls

client_status-some : (calls : List Call) (s : ℕ) → client_status calls (some s) ≡ s
unfolding client_status
client_status-some [] s = refl
client_status-some (head status ∷ calls) s = client_status-some calls s
client_status-some (body n ∷ calls) s = client_status-some calls s

nonzero_test : (s : ℕ) → s ≢ 0 → (s == 0) ≡ false
nonzero_test s h = ground (arith, h)

send-final : (s : ℕ) → 200 ≤ s → send s none ≡ some s
send-final s h = ground (arith, h)

abbrev settled_at : ℕ → ℕ → Recorder
settled_at s n = record { status = s; written = n; sent = some s }

record_call-some :
    (call : Call) (s n : ℕ) → s ≢ 0 → (m : ℕ) × (record_call call (settled_at s n) ≡ settled_at s m)
unfolding record_call
record_call-some (head status) s n h = (n, rw (nonzero_test s h) refl)
record_call-some (body k) s n h = (n + k, rw (nonzero_test s h) refl)

-- A recorder that has a status keeps it.
record_calls-some :
    (calls : List Call) (s n : ℕ) → s ≢ 0 → status_or_ok (record_calls calls (settled_at s n)) ≡ s
unfolding record_calls status_or_ok
record_calls-some [] s n h = rw (nonzero_test s h) refl
record_calls-some (call ∷ calls) s n h =
    let (m, same) = record_call-some call s n h in
    ap (λ rec. status_or_ok (record_calls calls rec)) same ∙ record_calls-some calls s m h

-- The status of the access log is the final one that the client gets, for any calls of a handler
-- that write no status below 200: the first status that is written, 200 where a body comes first,
-- and 200 where nothing is written.
pub status_or_ok-client_status :
    (calls : List Call)
    → AllFinal calls
    → status_or_ok (record_calls calls fresh_recorder) ≡ client_status calls none
unfolding record_calls record_call status_or_ok client_status
status_or_ok-client_status calls ok = first_call calls 0 ok
  where
    first_call :
        (calls : List Call) (n : ℕ)
        → AllFinal calls
        → status_or_ok (record_calls calls (record { status = 0; written = n; sent = none }))
          ≡ client_status calls none
    first_call [] n ok = refl
    first_call (head status ∷ calls) n (final, rest) =
        let nonzero : status ≢ 0 = λ e. omega (arith, e, final) in
        ap
          (λ sent.
            status_or_ok
              (record_calls calls (record { status = status; written = n; sent = sent })))
          (send-final status final)
        ∙ record_calls-some calls status n nonzero
        ∙ sym (client_status-some calls status)
        ∙ ap (client_status calls) (sym (send-final status final))
    first_call (body k ∷ calls) n rest =
        record_calls-some calls 200 (n + k) (λ e. cc e) ∙ sym (client_status-some calls 200)
