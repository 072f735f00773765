-- ===== src/Playground/Compare/Complete.antt =====
-- A sequential comparison that succeeds has compared every prompt, and its wait ends.
use inference_x.Prelude.{
  ℕ, zero, suc, ◌+◌, ◌-◌, ◌≤◌, ◌<◌, max, ◌≡◌, refl, ap, inl, inr, Bool, true, false, Option, some,
  List, [], ◌∷◌, map, ltb, arith, Option-cases, Bool-cases, All,
}
use inference_x.Playground.Compare.{
  Prompt, answered, other_loaded, other_error, Probe, unhealthy, pinged, Waited, is_loaded,
  timed_out, raised, probed, wait_loop, wait_for_loaded_model, fetch_all, print_pairs, code_of,
  second_phase, run_compare_sequential,
}

module _ {R : Type 0} (fetch_a fetch_b : Prompt → Option R) where
  -- A printed comparison has the prompt's two responses.
  abbrev pub Answered : Prompt × R × R → Type 0
  Answered (p, a, b) = (fetch_a p ≡ some a) × (fetch_b p ≡ some b)

  -- The responses of the first model are those of the prompts.
  abbrev Fetched : List Prompt → List R → Type 0
  Fetched [] rs = Unit
  Fetched (p ∷ ps) [] = ⊥
  Fetched (p ∷ ps) (r ∷ rs) = (fetch_a p ≡ some r) × Fetched ps rs

  fetch_all-Fetched :
      (ps : List Prompt) (rs : List R) → fetch_all fetch_a ps ≡ some rs → Fetched ps rs
  unfolding fetch_all
  fetch_all-Fetched [] rs h = tt
  fetch_all-Fetched (p ∷ ps) rs h = elim (Option-cases (fetch_a p)) [
    | inl n ↦ absurd (ground (arith, n, h))
    | inr (r, e) ↦ elim (Option-cases (fetch_all fetch_a ps)) [
      | inl n ↦ absurd (ground (arith, n, e, h))
      | inr (qs, f) ↦
          let same : rs ≡ r ∷ qs = ground (arith, e, f, h) in rw same (e, fetch_all-Fetched ps qs f)
    ]
  ]

  -- Comparisons that answer the prompts: all of them, if no error ended the printing.
  abbrev Pairs : List Prompt → List (Prompt × R × R) × Bool → Type 0
  Pairs ps out = All Answered out.0 × (out.1 ≡ true → map (λ e. e.0) out.0 ≡ ps)

  print_pairs-Pairs :
      (ps : List Prompt) (rs : List R) → Fetched ps rs → Pairs ps (print_pairs fetch_b ps rs)
  unfolding print_pairs
  print_pairs-Pairs [] rs h = (tt, λ e. refl)
  print_pairs-Pairs (p ∷ ps) [] h = absurd h
  print_pairs-Pairs (p ∷ ps) (r ∷ rs) h = elim (Option-cases (fetch_b p)) [
    | inl n ↦ rw (n, print_pairs, All) (tt, λ e. absurd (cc (e)))
    | inr (q, e) ↦
        let later = print_pairs-Pairs ps rs h.1 in
        rw (e, print_pairs, All) (((h.0, e), later.0), λ all. ap (◌∷◌ p) (later.1 all))
  ]

  -- What an outcome of the comparison promises.
  abbrev pub Compared : Waited → List Prompt → Option ℕ × List (Prompt × R × R) → Type 0
  Compared waited ps out =
      All Answered out.1 × (out.0 ≡ some 0 → (waited ≡ is_loaded) × (map (λ e. e.0) out.1 ≡ ps))

  second_phase-Compared :
      (ps : List Prompt) (rs : List R) (w : Waited)
      → Pairs ps (print_pairs fetch_b ps rs)
      → Compared w ps (second_phase fetch_b ps rs w)
  second_phase-Compared ps rs is_loaded h = coded (print_pairs fetch_b ps rs) h
    where
      coded :
          (out : List (Prompt × R × R) × Bool) → Pairs ps out → Compared is_loaded ps (code_of out)
      coded (printed, true) p = (p.0, λ e. (refl, p.1 refl))
      coded (printed, false) p = (p.0, λ e. absurd (ground (arith, e)))
  second_phase-Compared ps rs timed_out h = (tt, λ e. absurd (ground (arith, e)))
  second_phase-Compared ps rs raised h = (tt, λ e. absurd (ground (arith, e)))

  -- Whatever a sequential comparison prints shows a prompt with the two models' responses to it; and if
  -- its exit code is 0, the second model was loaded and every prompt was compared, in order.
  pub run_compare_sequential-Compared :
      (waited : Waited) (ps : List Prompt)
      → Compared waited ps (run_compare_sequential fetch_a fetch_b waited ps)
  unfolding run_compare_sequential
  run_compare_sequential-Compared waited ps = elim (Option-cases (fetch_all fetch_a ps)) [
    | inl n ↦ rw (n, run_compare_sequential, All) (tt, λ e. absurd (ground (arith, e)))
    | inr (rs, f) ↦
        rw (f, run_compare_sequential, All)
          (second_phase-Compared ps rs waited (print_pairs-Pairs ps rs (fetch_all-Fetched ps rs f)))
  ]

-- The wait ends, by its timeout and one round more, if it sleeps between rounds.
wait_loop-ends :
    (interval deadline longest : ℕ) (probe : ℕ → ℕ × Probe) (fuel now : ℕ)
    → 0 < interval
    → ((t : ℕ) → (probe t).0 ≤ longest)
    → deadline - now < fuel
    → (r : Waited × ℕ) × (wait_loop fuel interval deadline now probe ≡ some r)
      × (r.1 ≤ max now (deadline + longest + interval))
unfolding wait_loop
wait_loop-ends interval deadline longest probe zero now i l h = absurd (omega (arith, h))
wait_loop-ends interval deadline longest probe (suc fuel) now i l h =
    elim (Bool-cases (ltb now deadline)) [
      | inr over ↦ ((timed_out, now), rw (over, wait_loop) refl, omega arith)
      | inl before ↦
          let soon : now < deadline = ground (arith, before) in
          let next = now + (probe now).0 + interval in
          let later =
            wait_loop-ends interval deadline longest probe fuel next i l
              (omega (arith, h, i, soon)) in
          rw (before, wait_loop) (round (probe now).1 soon later)
    ]
  where
    round :
        (found : Probe)
        → now < deadline
        → (r : Waited × ℕ) × (wait_loop fuel interval deadline
              (now + (probe now).0 + interval)
              probe
            ≡ some r)
          × (r.1 ≤ max (now + (probe now).0 + interval) (deadline + longest + interval))
        → (r : Waited × ℕ) × (probed found
              (now + (probe now).0)
              (wait_loop fuel interval deadline (now + (probe now).0 + interval) probe)
            ≡ some r)
          × (r.1 ≤ max now (deadline + longest + interval))
    round unhealthy soon (r, e, b) = (r, e, omega (arith, b, l now, soon))
    round (pinged other_loaded) soon (r, e, b) = (r, e, omega (arith, b, l now, soon))
    round (pinged answered) soon later =
        ((is_loaded, now + (probe now).0), refl, omega (arith, l now, soon))
    round (pinged other_error) soon later =
        ((raised, now + (probe now).0), refl, omega (arith, l now, soon))

pub wait_for_loaded_model-ends :
    (probe : ℕ → ℕ × Probe) (timeout interval now longest : ℕ)
    → 0 < interval
    → ((t : ℕ) → (probe t).0 ≤ longest)
    → (r : Waited × ℕ) × (wait_for_loaded_model probe timeout interval now ≡ some r)
      × (r.1 ≤ now + timeout + longest + interval)
unfolding wait_for_loaded_model
wait_for_loaded_model-ends probe timeout interval now longest i l =
    let (r, e, b) =
      wait_loop-ends interval (now + timeout) longest probe (suc timeout) now i l (omega arith) in
    (r, e, omega (arith, b))
