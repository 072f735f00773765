-- ===== src/Admission/System/Tasks.antt =====
-- Finding and taking out the task of a ticket.
use inference_x.Prelude.{
  ℕ, String, ◌≡◌, ◌≢◌, refl, sym, ap, ◌∙◌, ◌⊎◌, inl, inr, Option, some, List, [], ◌∷◌, arith,
  Option-cases, Bool-cases, ◌==◌,
}
use inference_x.Admission.Admit.{Interrupt}
use inference_x.Admission.System.{waiting, Task, take}

-- A ticket of a request of the model that waits.
abbrev pub WaitsFor : List Task → String → ℕ → Type 0
WaitsFor ts m t =
    (x : Task) × (others : List Task) × (why : Option Interrupt) × (take t ts ≡ some (x, others))
    × (x.model ≡ m)
    × (x.stage ≡ waiting why)

pub take-ticket :
    (t : ℕ) (ts : List Task) (x : Task) (others : List Task)
    → take t ts ≡ some (x, others)
    → x.ticket ≡ t
unfolding take
take-ticket t [] x others e = cc
take-ticket t (y ∷ ys) x others e = elim (Option-cases (take t ys)) [
  | inl n ↦ ground (arith, n)
  | inr ((z, zs), h) ↦ ground (arith, h, take-ticket t ys z zs h)
]

take_nothing : (t : ℕ) (x : Task) (xs : List Task) → take t [] ≢ some (x, xs)
unfolding take
take_nothing t x xs e = cc

pub take-cons_other :
    (t : ℕ) (ts : List Task) (z x : Task) (others : List Task)
    → take t ts ≡ some (x, others)
    → t ≢ z.ticket
    → take t (z ∷ ts) ≡ some (x, z ∷ others)
unfolding take
take-cons_other t ts z x others e n = ground (arith, e, n)

-- The first task has the ticket, or it is found behind it.
take-cons :
    (t : ℕ) (z : Task) (zs : List Task) (x : Task) (xs : List Task)
    → take t (z ∷ zs) ≡ some (x, xs)
    → ((z.ticket ≡ t) × (x ≡ z) × (xs ≡ zs))
      ⊎ ((z.ticket ≢ t) × (ws : List Task) × (take t zs ≡ some (x, ws)) × (xs ≡ z ∷ ws))
unfolding take
take-cons t z zs x xs e = elim (Bool-cases (z.ticket == t)) [
  | inl same ↦ inl (ground (arith, same), ground (arith, e, same), ground (arith, e, same))
  | inr other ↦ elim (Option-cases (take t zs)) [
    | inl n ↦ absurd (ground (arith, e, other, n))
    | inr ((w, ws), h) ↦ inr (
      λ k. ground (arith, k, other),
      ws,
      ground (arith, e, other, h),
      ground (arith, e, other, h),
    )
  ]
]

pub take_here : (t : ℕ) (z : Task) (zs : List Task) → z.ticket ≡ t → take t (z ∷ zs) ≡ some (z, zs)
unfolding take
take_here t z zs e = ground (arith, e)

-- Taking another task out leaves a task to be found.
pub take-other :
    (t u : ℕ) (ts : List Task) (x y : Task) (xs ys : List Task)
    → take t ts ≡ some (x, xs)
    → take u ts ≡ some (y, ys)
    → t ≢ u
    → (zs : List Task) × (take t ys ≡ some (x, zs))
take-other t u [] x y xs ys e f n = absurd (take_nothing t x xs e)
take-other t u (z ∷ zs) x y xs ys e f n = elim (take-cons u z zs y ys f) [
  | inl (here, _, rest) ↦ elim (take-cons t z zs x xs e) [
    | inl (also, _, _) ↦ absurd (n (sym also ∙ here))
    | inr (_, ws, h, _) ↦ (ws, rw rest h)
  ]
  | inr (_, vs, g, rest) ↦ elim (take-cons t z zs x xs e) [
    | inl (here, same, _) ↦ (vs, rw (rest, same) (take_here t z vs here))
    | inr (apart, ws, h, _) ↦
        let (us, k) = take-other t u zs x y ws vs h g n in
        (z ∷ us, rw rest (take-cons_other t vs z x us k (λ l. apart (sym l))))
  ]
]

-- Another request that waits still waits when the task of `u` is taken out, or put back changed.
pub WaitsFor-others :
    (t u : ℕ) (ts : List Task) (m : String) (y : Task) (ys : List Task)
    → take u ts ≡ some (y, ys)
    → WaitsFor ts m t
    → t ≢ u
    → WaitsFor ys m t
WaitsFor-others t u ts m y ys f (x, xs, why, e, model, stage) n =
    let (zs, g) = take-other t u ts x y xs ys e f n in (x, zs, why, g, model, stage)

pub WaitsFor-front :
    (t : ℕ) (z : Task) (ts : List Task) (m : String)
    → WaitsFor ts m t
    → t ≢ z.ticket
    → WaitsFor (z ∷ ts) m t
WaitsFor-front t z ts m (x, xs, why, e, model, stage) n =
    (x, z ∷ xs, why, take-cons_other t ts z x xs e n, model, stage)

pub here-WaitsFor :
    (z : Task) (ts : List Task) (why : Option Interrupt)
    → z.stage ≡ waiting why
    → WaitsFor (z ∷ ts) z.model z.ticket
here-WaitsFor z ts why e = (z, ts, why, take_here z.ticket z ts refl, refl, e)

pub take-same :
    (t : ℕ) (ts : List Task) (x y : Task) (xs ys : List Task)
    → take t ts ≡ some (x, xs)
    → take t ts ≡ some (y, ys)
    → x ≡ y
take-same t ts x y xs ys e f = ground (arith, e, f)

-- The same when the task of `u` is put back in front, and still waits.
pub WaitsFor-moved :
    (t u : ℕ) (ts : List Task) (m : String) (y z : Task) (ys : List Task) (why : Option Interrupt)
    → take u ts ≡ some (y, ys)
    → z.ticket ≡ u
    → z.model ≡ y.model
    → z.stage ≡ waiting why
    → WaitsFor ts m t
    → WaitsFor (z ∷ ys) m t
WaitsFor-moved t u ts m y z ys why f same model waits w = elim (Bool-cases (t == u)) [
  | inl e ↦
      let t≡u : t ≡ u = ground (arith, e) in
      let (x, xs, _, g, of_m, _) = w in
      (
        z,
        ys,
        why,
        take_here t z ys (same ∙ sym t≡u),
        model ∙ ap (λ k. k.model) (sym (take-same t ts x y xs ys g (rw t≡u f))) ∙ of_m,
        waits,
      )
  | inr e ↦
      let apart : t ≢ u = λ k. ground (arith, e, k) in
      WaitsFor-front t z ys m (WaitsFor-others t u ts m y ys f w apart) (rw same apart)
]
