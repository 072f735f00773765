-- ===== src/Admission/Gates/Strict.antt =====
-- One predicate, two outcomes: what `strict` rejects is what is otherwise substituted.
use inference_x.Prelude.{
  ℕ, ◌<◌, String, ◌≡◌, refl, ◌↔◌, inl, inr, Bool, true, false, ◌||◌, Option, none, some, List, [],
  ◌∷◌, ◌++◌, ltb, arith, any,
}
use inference_x.Schemas.{
  ChatCompletionRequest, Fraction, Priority, ResponseWarning, substituted, degraded,
}
use inference_x.Admission.{
  AdmissionResult, Engine, Config, prompt_tokens, max_tokens_clamped_to_context,
  max_tokens_clamped_to_kv_budget, kv_gate_skipped,
}
use inference_x.Admission.Gates.{
  pass, context_gate, kv_gate, gates, request_ceiling, requested_output,
}
use inference_x.Admission.Gates.Bounds.{
  Passed, gates-Passed, Passed-gates, context_gate-fits, kv_gate-le, kv_gate-clamps,
}

abbrev pub is_substituted : ResponseWarning → Bool
is_substituted w = elim w.kind [ substituted ↦ true | degraded ↦ false ]

abbrev pub any_substituted : List ResponseWarning → Bool
any_substituted = any is_substituted

any-append :
    (xs ys : List ResponseWarning)
    → any_substituted (xs ++ ys) ≡ (any_substituted xs || any_substituted ys)
any-append [] ys = refl
any-append (x ∷ xs) ys = ground (arith, any-append xs ys)

abbrev Marked : ℕ → List ResponseWarning → ℕ × List ResponseWarning → Type 0
Marked requested ws r = any_substituted r.1 ≡ (any_substituted ws || ltb r.0 requested)

context_gate-Marked :
    (ceiling prompt requested : ℕ) (p : Priority) (s : Bool) (ws : List ResponseWarning)
    {r : ℕ × List ResponseWarning}
    → context_gate ceiling prompt requested p s ws ≡ pass r
    → Marked requested ws r
unfolding context_gate
context_gate-Marked ceiling prompt requested p s ws e =
    ground (arith, any-append ws (max_tokens_clamped_to_context ∷ []))

estimate-clean :
    (engine : Engine) (request : ChatCompletionRequest)
    → any_substituted (prompt_tokens engine request).1 ≡ false
unfolding prompt_tokens
estimate-clean engine request = ground arith

-- A clamp to the KV budget shortens the output, and only a clamp is marked.
kv_gate-Marked :
    (k : Option ℕ) (m : Fraction) (now prompt output : ℕ) (p : Priority) (s : Bool)
    (ws : List ResponseWarning) {r : ℕ × List ResponseWarning}
    → 0 < m.den
    → kv_gate k m now prompt output p s ws ≡ pass r
    → Marked output ws r
unfolding kv_gate
kv_gate-Marked none m now prompt output p s ws d e =
    ground (arith, any-append ws (kv_gate_skipped ∷ []))
kv_gate-Marked (some kv) m now prompt output p s ws d e = ground (
  arith,
  any-append ws (max_tokens_clamped_to_kv_budget ∷ []),
  kv_gate-clamps kv m now prompt output p s ws d e,
)

context_gate-strict :
    (ceiling prompt requested : ℕ) (p : Priority) (ws : List ResponseWarning)
    (r : ℕ × List ResponseWarning)
    → (context_gate ceiling prompt requested p true ws ≡ pass r)
      ↔ ((context_gate ceiling prompt requested p false ws ≡ pass r) × (r.0 ≡ requested))
unfolding context_gate
context_gate-strict ceiling prompt requested p ws r =
    (λ e. (ground arith, ground arith), λ e. ground arith)

kv_gate-strict :
    (k : Option ℕ) (m : Fraction) (now prompt output : ℕ) (p : Priority) (ws : List ResponseWarning)
    (r : ℕ × List ResponseWarning)
    → 0 < m.den
    → (kv_gate k m now prompt output p true ws ≡ pass r)
      ↔ ((kv_gate k m now prompt output p false ws ≡ pass r) × (r.0 ≡ output))
unfolding kv_gate
kv_gate-strict none m now prompt output p ws r d =
    (λ e. (ground arith, ground arith), λ e. ground arith)
kv_gate-strict (some kv) m now prompt output p ws r d = (
  λ e. elim (kv_gate-clamps kv m now prompt output p true ws d e) [
    | inl h ↦ (ground (arith, h.0), h.1)
    | inr h ↦ cc (h.3)
  ],
  λ e. elim (kv_gate-clamps kv m now prompt output p false ws d e.0) [
    | inl h ↦ ground (arith, h.0)
    | inr h ↦ absurd (omega (arith, h.1, e.1))
  ],
)

module _ (c : Config) (now : ℕ) (model : String) (engine : Engine) (ws : List ResponseWarning)
    (request : ChatCompletionRequest) where
  -- With a margin of positive denominator, and no "substituted" warning before the gates, a request that
  -- passes them has a "substituted" warning exactly if it is given less output than it asked for.
  pub gates-warns :
      (a : AdmissionResult)
      → 0 < c.kv_safety_margin.den
      → any_substituted ws ≡ false
      → gates c now model request engine ws ≡ pass a
      → any_substituted a.warnings ≡ ltb a.effective_max_tokens (requested_output request)
  gates-warns a d clean e =
      let g = gates-Passed c now model request engine ws a e in
      let m1 = context_gate-Marked _ _ _ _ _ _ g.by_context in
      let m2 = kv_gate-Marked _ _ _ _ _ _ _ _ d g.by_budget in
      let f = context_gate-fits _ _ _ _ _ _ g.by_context in
      let l = kv_gate-le _ _ _ _ _ _ _ _ d g.by_budget in
      ground (
        arith,
        m1,
        m2,
        f.1,
        l,
        clean,
        any-append ws (prompt_tokens engine request).1,
        estimate-clean engine request,
      )

  abbrev pub strictly : ChatCompletionRequest
  strictly = record request { strict = true }

  abbrev pub leniently : ChatCompletionRequest
  leniently = record request { strict = false }

  same_prompt :
      engine.count_prompt_tokens strictly ≡ engine.count_prompt_tokens leniently
      → prompt_tokens engine strictly ≡ prompt_tokens engine leniently
  unfolding prompt_tokens
  same_prompt h = ground (arith, h)

  strict_lenient :
      (a : AdmissionResult)
      → 0 < c.kv_safety_margin.den
      → prompt_tokens engine strictly ≡ prompt_tokens engine leniently
      → Passed c now model strictly engine ws a
      → Passed c now model leniently engine ws a
        × (a.effective_max_tokens ≡ requested_output request)
  unfolding requested_output request_ceiling
  strict_lenient a d h g =
      let c1 = (context_gate-strict _ _ _ _ _ _).0 (rw h at g.by_context) in
      let b1 = (kv_gate-strict _ _ _ _ _ _ _ _ d).0 (rw h at g.by_budget) in
      (
        record {
          fitted = g.fitted;
          by_context = c1.0;
          by_budget = b1.0;
          reserved = rw h at g.reserved;
        },
        omega (arith, b1.1, c1.1),
      )

  lenient_strict :
      (a : AdmissionResult)
      → 0 < c.kv_safety_margin.den
      → prompt_tokens engine strictly ≡ prompt_tokens engine leniently
      → Passed c now model leniently engine ws a
      → a.effective_max_tokens ≡ requested_output request
      → Passed c now model strictly engine ws a
  unfolding requested_output request_ceiling
  lenient_strict a d h g full =
      let f = context_gate-fits _ _ _ _ _ _ g.by_context in
      let l = kv_gate-le _ _ _ _ _ _ _ _ d g.by_budget in
      record {
        fitted = g.fitted;
        by_context =
            rw h ((context_gate-strict _ _ _ _ _ _).1 (g.by_context, omega (arith, f.1, l, full)));
        by_budget =
            rw h ((kv_gate-strict _ _ _ _ _ _ _ _ d).1 (g.by_budget, omega (arith, f.1, l, full)));
        reserved = rw h g.reserved;
      }

  -- With `strict` a request is admitted exactly if without it the request is admitted with all of
  -- the output that it asked for, and then with the same result. (The engine's token count does not
  -- depend on `strict`, and the margin's denominator is positive.)
  pub strict_iff :
      (a : AdmissionResult)
      → 0 < c.kv_safety_margin.den
      → engine.count_prompt_tokens strictly ≡ engine.count_prompt_tokens leniently
      → (gates c now model strictly engine ws ≡ pass a) ↔ (
          (gates c now model leniently engine ws ≡ pass a)
          × (a.effective_max_tokens ≡ requested_output request))
  strict_iff a d h =
      let p = same_prompt h in
      (
        λ e.
            let g = strict_lenient a d p (gates-Passed c now model strictly engine ws a e) in
            (Passed-gates c now model leniently engine ws a g.0, g.1),
        λ e.
            Passed-gates c now model strictly engine ws a
              (lenient_strict a d p (gates-Passed c now model leniently engine ws a e.0) e.1),
      )
