-- ===== src/Playground/Polling.antt =====
-- playground/streaming.py, `wait_for_model`, and playground/server_control.py, `wait_for_health`: loops
-- that ask a server until a deadline. A time is a number of thousandths of a second; a request at a
-- time takes a while and gives a reply.
pub mod Returns
use inference_x.Prelude.{
  ℕ, zero, suc, ◌+◌, ◌-◌, min, String, Bool, true, false, Option, none, some, List, any, ltb, leb,
  str_eq, if◌then◌else◌,
}

-- How a loop ends: it returns a value, or an exception that it does not catch leaves it.
pub data Ended : Type 0 where
  returned : Bool → Ended
  raised : Ended

-- What a round of the loop does: it ends the loop, or it goes on.
pub data Verdict : Type 0 where
  goes_on : Verdict
  ends : Ended → Verdict

-- `GET /health`: status 200 with the loaded models, status 200 with a body whose reading raises (it
-- is not JSON, or not an object), another status, or an HTTPError.
pub data HealthReply : Type 0 where
  healthy : List String → HealthReply
  malformed other_status unreachable : HealthReply

-- The rest of a round that goes on at `now`: the loop ends at the deadline, or it sleeps and begins
-- again.
abbrev pub after_round : Verdict → ℕ → ℕ → Option (Ended × ℕ) → Option (Ended × ℕ)
after_round (ends e) now deadline later = some (e, now)
after_round goes_on now deadline later =
    if leb deadline now then some (returned false, now) else later

-- `while time.monotonic() < deadline`, on fuel: how the loop ends, and when.
unfoldable pub poll : ℕ → ℕ → ℕ → ℕ → (ℕ → ℕ × Verdict) → Option (Ended × ℕ)
poll zero interval deadline now round = none
poll (suc fuel) interval deadline now round =
    let (took, verdict) = round now in
    let then_at = now + took in
    let later = poll fuel interval deadline (then_at + min interval (deadline - then_at)) round in
    if ltb now deadline
    then after_round verdict then_at deadline later
    else some (returned false, now)

-- A round of `wait_for_model`.
unfoldable pub model_verdict : String → HealthReply → Verdict
model_verdict model (healthy loaded) =
    if any (λ m. str_eq m model) loaded then ends (returned true) else goes_on
model_verdict model malformed = ends raised
model_verdict model other_status = goes_on
model_verdict model unreachable = goes_on

-- A round of `wait_for_health`, which reads no body; the log tells whether the start has failed.
unfoldable pub health_verdict : Bool → HealthReply → Verdict
health_verdict failed (healthy loaded) = ends (returned true)
health_verdict failed malformed = ends (returned true)
health_verdict failed other_status = if failed then ends (returned false) else goes_on
health_verdict failed unreachable = if failed then ends (returned false) else goes_on

-- Each round of the loop takes time, so the timeout is fuel enough.
unfoldable pub wait_for_model : (ℕ → ℕ × HealthReply) → String → ℕ → ℕ → ℕ → Option (Ended × ℕ)
unfolding poll model_verdict
wait_for_model ask model timeout interval now =
    poll (suc timeout) interval (now + timeout) now
      (λ t. let (took, reply) = ask t in (took, model_verdict model reply))

unfoldable pub wait_for_health : (ℕ → ℕ × HealthReply) → (ℕ → Bool) → ℕ → ℕ → ℕ → Option (Ended × ℕ)
unfolding poll health_verdict
wait_for_health ask startup_failed timeout interval now =
    poll (suc timeout) interval (now + timeout) now
      (λ t. let (took, reply) = ask t in (took, health_verdict (startup_failed (t + took)) reply))
