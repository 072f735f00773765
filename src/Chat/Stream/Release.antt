-- ===== src/Chat/Stream/Release.antt =====
-- A stream that was admitted releases its reservation exactly once, however it ends.
use mathlib.Core.List.{append-nil}
use inference_x.Prelude.{
  ℕ, zero, suc, ◌+◌, ◌≤◌, ◌<◌, ◌≡◌, refl, inl, inr, true, false, Option, none, some, List, [], ◌∷◌,
  ◌++◌, arith, total, total-append, Bool-cases, Option-cases,
}
use inference_x.Schemas.{ChatCompletionRequest}
use inference_x.Admission.{AdmissionResult}
use inference_x.Chat.Stream.{
  SseEvent, EngineStep, Ending, Closing, closed, close_fails, broke, raised, Action, emit,
  open_generator, close_generator, release, loop_ending, emits, loop_events, include_usage_of,
  try_actions, closed_after, opened, finally_actions, after_try, run_to_end, trace,
}

abbrev pub releases : List Action → ℕ
releases = total (λ a. elim a [ release ↦ 1 | _ ↦ 0 ])

abbrev pub closes : List Action → ℕ
closes = total (λ a. elim a [ close_generator ↦ 1 | _ ↦ 0 ])

abbrev pub opens : List Action → ℕ
opens = total (λ a. elim a [ open_generator ↦ 1 | _ ↦ 0 ])

-- Inside the `try` nothing is released or closed, and the generator is opened at most once.
abbrev Inside : List Action → Type 0
Inside acts = (releases acts ≡ 0) × (closes acts ≡ 0)

emits-Inside : (es : List SseEvent) → Inside (emits es) × (opens (emits es) ≡ 0)
emits-Inside [] = (omega arith, refl)
emits-Inside (e ∷ es) = omega (arith, emits-Inside es)

try-Inside :
    (request : ChatCompletionRequest) (admitted : AdmissionResult) (steps : List EngineStep)
    → Inside (try_actions request admitted steps) × (opens (try_actions request admitted steps) ≡ 1)
unfolding try_actions
try-Inside request admitted steps =
    omega (arith, emits-Inside (loop_events (include_usage_of request) steps))

Some-closed :
    (n : ℕ) (acts pre : List Action)
    → closed_after n acts ≡ some pre
    → Inside acts
    → Inside pre × (opens pre ≤ opens acts)
unfolding closed_after
Some-closed zero acts pre e h = let same : pre ≡ [] = ground arith in rw same (omega arith)
Some-closed (suc n) [] pre e h = cc
Some-closed (suc n) (emit x ∷ acts) pre e h = elim (Option-cases (closed_after n acts)) [
  | inl k ↦ absurd (ground (arith, k))
  | inr (q, k) ↦
      let same : pre ≡ emit x ∷ q = ground (arith, k) in
      let i : Inside acts = omega (arith, h) in rw same (omega (arith, Some-closed n acts q k i))
]
Some-closed (suc n) (open_generator ∷ acts) pre e h =
    elim (Option-cases (closed_after (suc n) acts)) [
      | inl k ↦ absurd (ground (arith, k))
      | inr (q, k) ↦
          let same : pre ≡ open_generator ∷ q = ground (arith, k) in
          let i : Inside acts = omega (arith, h) in
          rw same (omega (arith, Some-closed (suc n) acts q k i))
    ]
Some-closed (suc n) (close_generator ∷ acts) pre e h = absurd (omega (arith, h.1))
Some-closed (suc n) (release ∷ acts) pre e h = absurd (omega (arith, h.0))

opened-opens : (acts : List Action) → opened acts ≡ true → 0 < opens acts
opened-opens [] e = cc
opened-opens (a ∷ acts) e = ground (arith, opened-opens acts)

not_opened : (acts : List Action) → opened acts ≡ false → opens acts ≡ 0
not_opened [] e = refl
not_opened (a ∷ acts) e = ground (arith, not_opened acts)

-- What was opened is closed, and there is one release, or none after a close that raised.
abbrev pub Settled : Closing → List Action → Type 0
Settled closed acts = (releases acts ≡ 1) × (closes acts ≡ opens acts)
Settled close_fails acts = (releases acts + opens acts ≡ 1) × (closes acts ≡ opens acts)

-- The counts of a run are those of its parts.
counts-append :
    (acts rest : List Action)
    → (releases (acts ++ rest) ≡ releases acts + releases rest)
      × (closes (acts ++ rest) ≡ closes acts + closes rest)
      × (opens (acts ++ rest) ≡ opens acts + opens rest)
counts-append acts rest = (
  total-append {0} (λ a. elim a [ release ↦ 1 | _ ↦ 0 ]) acts rest,
  total-append {0} (λ a. elim a [ close_generator ↦ 1 | _ ↦ 0 ]) acts rest,
  total-append {0} (λ a. elim a [ open_generator ↦ 1 | _ ↦ 0 ]) acts rest,
)

finally-Settled :
    (closing : Closing) (acts rest : List Action)
    → Inside acts
    → opens acts ≤ 1
    → (releases rest ≡ 0) × (closes rest ≡ 0) × (opens rest ≡ 0)
    → Settled closing (acts ++ (finally_actions closing acts ++ rest))
unfolding finally_actions
finally-Settled closed acts rest h le r = elim (Bool-cases (opened acts)) [
  | inl o ↦
      rw o
        (omega (arith, opened-opens acts o, counts-append acts (close_generator ∷ release ∷ rest)))
  | inr o ↦ rw o (omega (arith, not_opened acts o, counts-append acts (release ∷ rest)))
]
finally-Settled close_fails acts rest h le r = elim (Bool-cases (opened acts)) [
  | inl o ↦ rw o (omega (arith, opened-opens acts o, counts-append acts (close_generator ∷ rest)))
  | inr o ↦ rw o (omega (arith, not_opened acts o, counts-append acts (release ∷ rest)))
]

after_try-quiet :
    (closing : Closing) (e : Ending)
    → (releases (after_try closing e) ≡ 0)
      × (closes (after_try closing e) ≡ 0)
      × (opens (after_try closing e) ≡ 0)
after_try-quiet closed broke = omega arith
after_try-quiet closed raised = omega arith
after_try-quiet close_fails e = omega arith

run-Settled :
    (request : ChatCompletionRequest) (admitted : AdmissionResult) (steps : List EngineStep)
    (closing : Closing)
    → Settled closing (run_to_end request admitted steps closing)
unfolding run_to_end
run-Settled request admitted steps closing =
    let t = try-Inside request admitted steps in
    finally-Settled closing (try_actions request admitted steps)
      (after_try closing (loop_ending steps)) t.0 (omega (arith, t.1))
      (after_try-quiet closing (loop_ending steps))

-- Whatever the engine does (chunks, a stall, an exception, any mixture), and whether the stream runs
-- to its end or its consumer goes away after any event: the engine's generator is closed if it was
-- opened, and the reservation is released exactly once, except that it is never released if closing
-- the generator raises.
pub trace-Settled :
    (request : ChatCompletionRequest) (admitted : AdmissionResult) (steps : List EngineStep)
    (leaves : Option ℕ) (closing : Closing)
    → Settled closing (trace request admitted steps leaves closing)
unfolding trace
trace-Settled request admitted steps none closing = run-Settled request admitted steps closing
trace-Settled request admitted steps (some n) closing =
    let acts = try_actions request admitted steps in
    let t = try-Inside request admitted steps in
    elim (Option-cases (closed_after (suc n) acts)) [
      | inl k ↦ rw (k, trace) (run-Settled request admitted steps closing)
      | inr (pre, k) ↦
          let p = Some-closed (suc n) acts pre k t.0 in
          rw (k, trace)
            (rw (← (append-nil (finally_actions closing pre)))
              (finally-Settled closing pre [] p.0 (omega (arith, p.1, t.1)) (omega arith)))
    ]
