-- ===== src/Playground/Polling/Returns.antt =====
-- The loops return, in time and for a reason.
use inference_x.Prelude.{
  List, [], ◌∷◌, subst, eq_iff, ◌≢◌, ℕ, zero, suc, ◌+◌, ◌-◌, ◌≤◌, ◌<◌, min, max, String, true,
  false, some, ◌≡◌, ◌⊎◌, refl, inl, inr, arith, any, str_eq, ltb, leb, Bool-cases,
}
use mathlib.Core.List.{Mem, mem-cons_self, mem-cons_of_mem}
use inference_x.Playground.Polling.{
  Ended, returned, raised, Verdict, goes_on, ends, HealthReply, healthy, malformed, other_status,
  unreachable, poll, model_verdict, wait_for_model,
}

-- A round, at a time before the deadline, that ended the loop as `b` at `t`.
abbrev pub EndedBy : (ℕ → ℕ × Verdict) → ℕ → Ended → ℕ → Type 0
EndedBy round deadline b t =
    (asked : ℕ) × (asked < deadline) × ((round asked).1 ≡ ends b) × (t ≡ asked + (round asked).0)

-- It ended as a round ended it, or it returned false at the deadline or later.
abbrev pub Reason : (ℕ → ℕ × Verdict) → ℕ → Ended × ℕ → Type 0
Reason round deadline (b, t) = EndedBy round deadline b t ⊎ ((b ≡ returned false) × (deadline ≤ t))

Verdict-cases : (v : Verdict) → (v ≡ goes_on) ⊎ ((b : Ended) × (v ≡ ends b))
Verdict-cases goes_on = inl refl
Verdict-cases (ends b) = inr (b, refl)

module _ (interval deadline longest : ℕ) (round : ℕ → ℕ × Verdict) where
  poll-returns :
      (fuel now : ℕ)
      → 0 < interval
      → ((t : ℕ) → (round t).0 ≤ longest)
      → deadline - now < fuel
      → (r : Ended × ℕ) × (poll fuel interval deadline now round ≡ some r)
        × (r.1 ≤ max now deadline + longest)
        × Reason round deadline r
  unfolding poll
  poll-returns zero now i l h = absurd (omega (arith, h))
  poll-returns (suc fuel) now i l h =
      let then_at = now + (round now).0 in
      let next = then_at + min interval (deadline - then_at) in
      elim (Bool-cases (ltb now deadline)) [
        | inr over ↦ (
          (returned false, now),
          rw (over, poll) refl,
          omega arith,
          inr (refl, ground (arith, over)),
        )
        | inl before ↦
            let soon : now < deadline = ground (arith, before) in
            elim (Verdict-cases (round now).1) [
              | inr (b, v) ↦ (
                (b, then_at),
                rw (before, v, poll) refl,
                omega (arith, l now),
                inl (now, soon, v, refl),
              )
              | inl v ↦ elim (Bool-cases (leb deadline then_at)) [
                | inl late ↦ (
                  (returned false, then_at),
                  rw (before, v, late, poll) refl,
                  omega (arith, l now),
                  inr (refl, ground (arith, late)),
                )
                | inr early ↦
                    let left : then_at < deadline = ground (arith, early) in
                    let (r, e, bound, why) =
                      poll-returns fuel next i l (omega (arith, h, i, left, soon)) in
                    (r, rw (before, v, early, poll) e, omega (arith, bound, left), why)
              ]
            ]
      ]

-- A reply of a server that lists the model, and one whose body is malformed.
abbrev pub Lists : String → HealthReply → Type 0
Lists model reply = (loaded : List String) × (reply ≡ healthy loaded) × Mem model loaded

any-Mem : (model : String) (ms : List String) → any (λ m. str_eq m model) ms ≡ true → Mem model ms
any-Mem model [] h = absurd (ground (arith, h))
any-Mem model (m ∷ ms) h = elim (Bool-cases (str_eq m model)) [
  | inl e ↦ subst (λ x. Mem x (m ∷ ms)) ((eq_iff m model).0 e) mem-cons_self
  | inr e ↦ mem-cons_of_mem m (any-Mem model ms (ground (arith, e, h)))
]

-- Why a reply ends the wait.
abbrev pub Why : String → HealthReply → Ended → Type 0
Why model reply (returned true) = Lists model reply
Why model reply (returned false) = ⊥
Why model reply raised = reply ≡ malformed

model_verdict-Why :
    (model : String) (reply : HealthReply) (b : Ended)
    → model_verdict model reply ≡ ends b
    → Why model reply b
unfolding model_verdict
model_verdict-Why model (healthy loaded) b h =
    elim (Bool-cases (any (λ m. str_eq m model) loaded)) [
      | inl e ↦
          let same : returned true ≡ b = ground (arith, e, h) in
          subst (Why model (healthy loaded)) same (loaded, refl, any-Mem model loaded e)
      | inr e ↦ absurd (ground (arith, e, h))
    ]
model_verdict-Why model malformed b h =
    let same : raised ≡ b = ground (arith, h) in subst (Why model malformed) same refl
model_verdict-Why model other_status b h = absurd (ground (arith, h))
model_verdict-Why model unreachable b h = absurd (ground (arith, h))

-- What ended the wait: false stands for the deadline, and anything else for a reply to a request that
-- was made before it.
abbrev pub Found : (ℕ → ℕ × HealthReply) → String → ℕ → Ended × ℕ → Type 0
Found ask model deadline (b, t) =
    ((b ≡ returned false) × (deadline ≤ t))
    ⊎ ((b ≢ returned false)
        × ((asked : ℕ) × (asked < deadline)
            × Why model (ask asked).1 b
            × (t ≡ asked + (ask asked).0)))

Why-not_false :
    (model : String) (reply : HealthReply) (b : Ended) → Why model reply b → b ≢ returned false
Why-not_false model reply b w e = subst (Why model reply) e w

module _ (ask : ℕ → ℕ × HealthReply) (model : String) (deadline : ℕ) where
  Reason-Found :
      (r : Ended × ℕ)
      → Reason (λ t. let (took, reply) = ask t in (took, model_verdict model reply)) deadline r
      → Found ask model deadline r
  Reason-Found (b, t) (inr late) = inl late
  Reason-Found (b, t) (inl (asked, soon, v, at)) =
      let w = model_verdict-Why model (ask asked).1 b v in
      inr (Why-not_false model (ask asked).1 b w, (asked, soon, w, at))

-- With a positive interval and requests that take at most `longest`, `wait_for_model` ends, by its
-- timeout and one request more: it returns false only at the deadline or later, it returns true only
-- if a request made before the deadline was answered by a server that lists the model, and it raises
-- only if such a request was answered with status 200 and a malformed body.
pub wait_for_model-returns :
    (ask : ℕ → ℕ × HealthReply) (model : String) (timeout interval now longest : ℕ)
    → 0 < interval
    → ((t : ℕ) → (ask t).0 ≤ longest)
    → (r : Ended × ℕ) × (wait_for_model ask model timeout interval now ≡ some r)
      × (r.1 ≤ now + timeout + longest)
      × Found ask model (now + timeout) r
unfolding wait_for_model
wait_for_model-returns ask model timeout interval now longest i l =
    let (r, e, bound, why) =
      poll-returns interval (now + timeout) longest
        (λ t. let (took, reply) = ask t in (took, model_verdict model reply)) (suc timeout) now i l
        (omega arith) in
    (r, e, omega (arith, bound), Reason-Found ask model (now + timeout) r why)
