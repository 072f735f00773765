-- ===== src/Admission/Gates/Bounds.antt =====
-- What an admitted request may use.
use inference_x.Prelude.{
  ℕ, ◌+◌, ◌*◌, ◌/◌, ◌≤◌, ◌<◌, max, String, ◌≡◌, refl, subst, ◌⊎◌, inl, inr, Bool, true, false,
  Option, none, some, List, [], ◌∷◌, ◌++◌, arith, Bool-cases,
}
use native.Mathlib.Nat.{div-mul-le_self, le-div_iff_mul-le, div-lt_iff_lt-mul}
use inference_x.Prelude.Int.{pos, sub_ℕ, pos_part, ltb_ℤ}
use inference_x.Schemas.{ChatCompletionRequest, Fraction, Priority, ResponseWarning}
use inference_x.Admission.{
  AdmissionResult, Engine, Config, prompt_tokens, min_clamped_output_tokens,
  max_tokens_clamped_to_kv_budget,
}
use inference_x.Admission.Gates.{
  Verdict, pass, reject, ◌>>=◌, context_gate, kv_gate, gates, request_ceiling, requested_output,
}

-- Inversion of a bind that passed.
pub >>=-eq-pass {ℓ κ} :
    {A : Type ℓ} {B : Type κ} (m : Verdict A) (f : A → Verdict B) {b : B}
    → (m >>= f) ≡ pass b
    → (a : A) × (m ≡ pass a) × (f a ≡ pass b)
>>=-eq-pass (pass a) f h = (a, refl, h)
>>=-eq-pass (reject e) f h = cc

pub context_gate-fits :
    (ceiling prompt requested : ℕ) (p : Priority) (s : Bool) (ws : List ResponseWarning)
    {r : ℕ × List ResponseWarning}
    → context_gate ceiling prompt requested p s ws ≡ pass r
    → (prompt + r.0 ≤ ceiling) × (r.0 ≤ requested)
unfolding context_gate
context_gate-fits ceiling prompt requested p s ws e = ground arith

-- The clamp to whole tokens stays within the budget, and shortens the output.
clamp_fits :
    (a d o : ℕ)
    → 0 < d
    → min_clamped_output_tokens * d ≤ a
    → a < o * d
    → (max min_clamped_output_tokens (a / d) * d ≤ a) × (max min_clamped_output_tokens (a / d) < o)
clamp_fits a d o h k l =
    let low : min_clamped_output_tokens ≤ a / d = (le-div_iff_mul-le h).1 k in
    let e : max min_clamped_output_tokens (a / d) ≡ a / d = omega arith in
    rw e (div-mul-le_self a d, (div-lt_iff_lt-mul h).1 l)

budget_left :
    (b u x : ℕ) → ltb_ℤ (sub_ℕ b u) (pos x) ≡ false → (u + x ≤ b) × (pos_part (sub_ℕ b u) + u ≡ b)
budget_left b u x h = ground arith

budget_short : (b u x : ℕ) → ltb_ℤ (sub_ℕ b u) (pos x) ≡ true → b < u + x
budget_short b u x h = ground arith

regroup : (n p o d b : ℕ) → (n + p) * d + o * d ≤ b → (n + (p + o)) * d ≤ b
regroup n p o d b h = omega arith

pub kv_gate-fits :
    (kv : ℕ) (m : Fraction) (now prompt output : ℕ) (p : Priority) (s : Bool)
    (ws : List ResponseWarning) {r : ℕ × List ResponseWarning}
    → 0 < m.den
    → kv_gate (some kv) m now prompt output p s ws ≡ pass r
    → ((now + (prompt + r.0)) * m.den ≤ kv * m.num) × (r.0 ≤ output)
unfolding kv_gate
kv_gate-fits kv m now prompt output p s ws {r} d e =
    let b = kv * m.num in
    let u = (now + prompt) * m.den in
    let a = pos_part (sub_ℕ b u) in
    elim (Bool-cases (ltb_ℤ (sub_ℕ b u) (pos (output * m.den)))) [
      | inr enough ↦
          let left = budget_left b u (output * m.den) enough in
          let same : r.0 ≡ output = ground (arith, enough) in
          rw same (regroup now prompt output m.den b left.0, omega arith)
      | inl short ↦
          elim (Bool-cases (ltb_ℤ (sub_ℕ b u) (pos (min_clamped_output_tokens * m.den)))) [
            | inl tiny ↦ absurd (ground (arith, short, tiny))
            | inr least ↦
                let left = budget_left b u (min_clamped_output_tokens * m.den) least in
                let lack = budget_short b u (output * m.den) short in
                let clamp =
                  clamp_fits a m.den output d (omega (arith, left.0, left.1))
                    (omega (arith, left.1, lack)) in
                let same : r.0 ≡ max min_clamped_output_tokens (a / m.den) =
                  ground (arith, short, least) in
                rw same (
                  regroup now prompt (max min_clamped_output_tokens (a / m.den)) m.den b
                      (omega (arith, clamp.0, left.1)),
                  omega (arith, clamp.1),
                )
          ]
    ]

-- The budget that is left does not cover the output.
abbrev pub is_short : ℕ → Fraction → ℕ → ℕ → ℕ → Bool
is_short kv m now prompt output =
    ltb_ℤ (sub_ℕ (kv * m.num) ((now + prompt) * m.den)) (pos (output * m.den))

-- A request that passes is given what it asked for, or it was clamped and is given less.
pub kv_gate-clamps :
    (kv : ℕ) (m : Fraction) (now prompt output : ℕ) (p : Priority) (s : Bool)
    (ws : List ResponseWarning) {r : ℕ × List ResponseWarning}
    → 0 < m.den
    → kv_gate (some kv) m now prompt output p s ws ≡ pass r
    → ((is_short kv m now prompt output ≡ false) × (r.0 ≡ output) × (r.1 ≡ ws))
      ⊎ ((is_short kv m now prompt output ≡ true)
          × (r.0 < output)
          × (r.1 ≡ ws ++ max_tokens_clamped_to_kv_budget ∷ [])
          × (s ≡ false))
unfolding kv_gate
kv_gate-clamps kv m now prompt output p s ws {r} d e =
    let b = kv * m.num in
    let u = (now + prompt) * m.den in
    let a = pos_part (sub_ℕ b u) in
    elim (Bool-cases (ltb_ℤ (sub_ℕ b u) (pos (output * m.den)))) [
      | inr enough ↦ inl (enough, ground (arith, enough), ground (arith, enough))
      | inl short ↦
          elim (Bool-cases (ltb_ℤ (sub_ℕ b u) (pos (min_clamped_output_tokens * m.den)))) [
            | inl tiny ↦ absurd (ground (arith, short, tiny))
            | inr least ↦
                let left = budget_left b u (min_clamped_output_tokens * m.den) least in
                let lack = budget_short b u (output * m.den) short in
                let clamp =
                  clamp_fits a m.den output d (omega (arith, left.0, left.1))
                    (omega (arith, left.1, lack)) in
                inr (
                  short,
                  ground (arith, short, least, clamp.1),
                  ground (arith, short, least),
                  ground (arith, short, least),
                )
          ]
    ]

pub kv_gate-le :
    (k : Option ℕ) (m : Fraction) (now prompt output : ℕ) (p : Priority) (s : Bool)
    (ws : List ResponseWarning) {r : ℕ × List ResponseWarning}
    → 0 < m.den
    → kv_gate k m now prompt output p s ws ≡ pass r
    → r.0 ≤ output
unfolding kv_gate
kv_gate-le none m now prompt output p s ws d e = ground arith
kv_gate-le (some kv) m now prompt output p s ws d e =
    (kv_gate-fits kv m now prompt output p s ws d e).1

kv_gate-budget :
    (k : Option ℕ) (kv : ℕ) (m : Fraction) (now prompt output : ℕ) (p : Priority) (s : Bool)
    (ws : List ResponseWarning) {r : ℕ × List ResponseWarning}
    → 0 < m.den
    → k ≡ some kv
    → kv_gate k m now prompt output p s ws ≡ pass r
    → (now + (prompt + r.0)) * m.den ≤ kv * m.num
kv_gate-budget none kv m now prompt output p s ws d k e = cc
kv_gate-budget (some x) kv m now prompt output p s ws {r} d k e =
    let same : x ≡ kv = cc in
    subst (λ y. (now + (prompt + r.0)) * m.den ≤ y * m.num) same
      (kv_gate-fits x m now prompt output p s ws d e).0

-- The two gates of a request that passed: what each of them returned.
pub record Passed (c : Config) (now : ℕ) (model : String) (request : ChatCompletionRequest)
    (engine : Engine) (ws : List ResponseWarning) (a : AdmissionResult) : Type 0 where
  pub fitted : ℕ × List ResponseWarning
  pub by_context :
      context_gate
        (request_ceiling c model request)
        (prompt_tokens engine request).0
        (requested_output request)
        request.priority
        request.strict
        (ws ++ (prompt_tokens engine request).1)
      ≡ pass fitted
  pub by_budget :
      kv_gate engine.kv_capacity_tokens c.kv_safety_margin now
        (prompt_tokens engine request).0
        fitted.0
        request.priority
        request.strict
        fitted.1
      ≡ pass (a.effective_max_tokens, a.warnings)
  pub reserved : a.reserved_tokens ≡ (prompt_tokens engine request).0 + a.effective_max_tokens

module _ (c : Config) (now : ℕ) (model : String) (request : ChatCompletionRequest) (engine : Engine)
    (ws : List ResponseWarning) where
  pub gates-Passed :
      (a : AdmissionResult)
      → gates c now model request engine ws ≡ pass a
      → Passed c now model request engine ws a
  unfolding gates
  gates-Passed a e =
      let (fitted, e1, rest) =
        >>=-eq-pass
          (context_gate (request_ceiling c model request) (prompt_tokens engine request).0
            (requested_output request) request.priority request.strict
            (ws ++ (prompt_tokens engine request).1))
          _ e in
      let (final, e2, done) =
        >>=-eq-pass
          (kv_gate engine.kv_capacity_tokens c.kv_safety_margin now (prompt_tokens engine request).0
            fitted.0 request.priority request.strict fitted.1)
          _ rest in
      record {
        fitted = fitted;
        by_context = e1;
        by_budget = ground (arith, e2, done);
        reserved = ground (arith, done);
      }

  pub Passed-gates :
      (a : AdmissionResult)
      → Passed c now model request engine ws a
      → gates c now model request engine ws ≡ pass a
  unfolding gates
  Passed-gates a g = rw (g.by_context, ◌>>=◌, g.by_budget) (ground (arith, g.reserved))

  request_ceiling-le :
      (own : ℕ) → request.max_context_tokens ≡ some own → request_ceiling c model request ≤ own
  unfolding request_ceiling
  request_ceiling-le own o = rw o (omega arith)

  -- With a margin of positive denominator, an admitted request fits the context ceiling and its own
  -- context limit, if it has one, with its prompt, is never given more output than it asked for, and
  -- reserves its prompt and its output together.
  pub gates-fits :
      (a : AdmissionResult)
      → 0 < c.kv_safety_margin.den
      → gates c now model request engine ws ≡ pass a
      → ((prompt_tokens engine request).0 + a.effective_max_tokens
          ≤ request_ceiling c model request)
        × (a.effective_max_tokens ≤ requested_output request)
        × (a.reserved_tokens ≡ (prompt_tokens engine request).0 + a.effective_max_tokens)
        × ((own : ℕ)
            → request.max_context_tokens ≡ some own
            → (prompt_tokens engine request).0 + a.effective_max_tokens ≤ own)
  gates-fits a d e =
      let g = gates-Passed a e in
      let f = context_gate-fits _ _ _ _ _ _ g.by_context in
      let l = kv_gate-le _ _ _ _ _ _ _ _ d g.by_budget in
      (
        omega (arith, f.0, l),
        omega (arith, f.1, l),
        g.reserved,
        λ own o. omega (arith, f.0, l, request_ceiling-le own o),
      )

  -- With a reported capacity and a margin of positive denominator, the tokens reserved before and by the request stay within the margin
  -- of that capacity.
  pub gates-budget :
      (a : AdmissionResult) (kv : ℕ)
      → 0 < c.kv_safety_margin.den
      → engine.kv_capacity_tokens ≡ some kv
      → gates c now model request engine ws ≡ pass a
      → (now + a.reserved_tokens) * c.kv_safety_margin.den ≤ kv * c.kv_safety_margin.num
  gates-budget a kv d k e =
      let g = gates-Passed a e in rw g.reserved (kv_gate-budget _ kv _ _ _ _ _ _ _ d k g.by_budget)
