-- ===== src/Sizing/Utilization/Bounds.antt =====
-- The share that an engine gets is within the headroom and within what is free, and it covers the
-- weights.
use native.Mathlib.Nat.{le_of_mul-le-mul_right, mul-le-mul_right}
use inference_x.Prelude.{
  ℕ, ◌+◌, ◌*◌, ◌≤◌, ◌<◌, String, false, Option, none, some, ltb, ◌==◌, ◌≡◌, refl, inl, inr, arith,
  Bool-cases, if◌then◌else◌,
}
use inference_x.Prelude.Round.{nearest_bounds, nearest-le}
use inference_x.Schemas.{Fraction}
use inference_x.Sizing.{Outside, or_num, estimate_weight}
use inference_x.Sizing.Share.{
  ◌≤ᶠ◌, min_share, max_share, Positive, le-trans, min_share-le_right, min_share-le_left,
  le-max_share, le-min_share, min_share-Positive, max_share-Positive,
}
use inference_x.Sizing.Utilization.{
  SizedModel, user_util_cap, share_of_free, too_heavy, limited, headroom, exact_utilization,
  round_4, minimum_utilization, weights_only_utilization, single_engine_utilization,
}

-- The share of a model after the user's ceiling is applied, `x`, and before it is rounded.
abbrev settled : Fraction → Fraction → Option Fraction → Fraction
settled x weights from_free = min_share (limited (max_share x weights) from_free) headroom

settled-le-free :
    (x weights free : Fraction)
    → Positive x
    → Positive weights
    → Positive free
    → settled x weights (some free) ≤ᶠ free
unfolding limited
settled-le-free x weights free p w f =
    let y = min_share (max_share x weights) free in
    le-trans (min_share y headroom) y free
      (min_share-Positive (max_share x weights) free (max_share-Positive x weights p w) f)
      (min_share-le_left y headroom) (min_share-le_right (max_share x weights) free)

-- Weights that fit what is free and the headroom are covered.
le-settled :
    (x weights free : Fraction)
    → weights ≤ᶠ free
    → weights ≤ᶠ headroom
    → weights ≤ᶠ settled x weights (some free)
unfolding limited
le-settled x weights free f h =
    le-min_share weights (min_share (max_share x weights) free) headroom
      (le-min_share weights (max_share x weights) free (le-max_share x weights) f) h

settled-Positive :
    (x weights free : Fraction)
    → Positive x
    → Positive weights
    → Positive free
    → Positive (settled x weights (some free))
unfolding limited
settled-Positive x weights free p w f =
    min_share-Positive (min_share (max_share x weights) free) headroom
      (min_share-Positive (max_share x weights) free (max_share-Positive x weights p w) f)
      (omega arith)

-- Rounding moves a bound by half of the last digit.
round-le :
    (e b : Fraction) → Positive e → e ≤ᶠ b → 2 * ((round_4 e).num * b.den) ≤ 20000 * b.num + b.den
unfolding round_4
round-le e b p h =
    le_of_mul-le-mul_right
      (grind (arith, mul-le-mul_right b.den (nearest_bounds (10000 * e.num) e.den p).0, h)) p

round-ge :
    (e b : Fraction) → Positive e → b ≤ᶠ e → 20000 * b.num ≤ 2 * ((round_4 e).num * b.den) + b.den
unfolding round_4
round-ge e b p h =
    le_of_mul-le-mul_right
      (grind (arith, mul-le-mul_right b.den (nearest_bounds (10000 * e.num) e.den p).1, h)) p

round-le-headroom :
    (x weights free : Fraction)
    → Positive (settled x weights (some free))
    → (round_4 (settled x weights (some free))).num ≤ 9200
unfolding round_4
round-le-headroom x weights free p =
    let e = settled x weights (some free) in
    let h = min_share-le_right (limited (max_share x weights) (some free)) headroom in
    nearest-le (10000 * e.num) e.den 9200 p (omega (arith, h))

abbrev pub PositiveIf : Option Fraction → Type 0
PositiveIf none = Unit
PositiveIf (some l) = Positive l

limited-Positive :
    (util : Fraction) (limit : Option Fraction)
    → Positive util
    → PositiveIf limit
    → Positive (limited util limit)
unfolding limited
limited-Positive util none p q = p
limited-Positive util (some l) p q = min_share-Positive util l p q

-- The user's ceiling, if there is one, is a number.
abbrev pub Sensible : SizedModel → Type 0
Sensible config = PositiveIf (user_util_cap config)

-- For a GPU with `total` memory, of which `free` is free: weights above 0.98 of what is free for a
-- refusal; and for a share, at most 0.92, at most 0.98 of what is free, and no less than weights that
-- fit the headroom, up to half of the fourth digit.
abbrev pub Sized : ℕ → ℕ → ℕ → Option Fraction → Type 0
Sized weight total free none = 98 * free < 100 * weight
Sized weight total free (some u) =
    (100 * weight ≤ 98 * free)
    × (u.den ≡ 10000)
    × (u.num ≤ 9200)
    × (2 * (u.num * total) ≤ 2 * 98 * 100 * free + total)
    × (100 * weight ≤ 92 * total → 20000 * weight ≤ 2 * (u.num * total) + total)

round_4-den : (e : Fraction) → (round_4 e).den ≡ 10000
unfolding round_4
round_4-den e = refl

share-Sized :
    (x : Fraction) (weight total free : ℕ)
    → Positive x
    → 0 < total
    → 100 * weight ≤ 98 * free
    → Sized weight total free (
        some (
          round_4 (
            settled x
              (record { num = weight; den = total })
              (some (record { num = 98 * free; den = 100 * total })))))
share-Sized x weight total free p t le =
    let w : Fraction = record { num = weight; den = total } in
    let f : Fraction = record { num = 98 * free; den = 100 * total } in
    let e = settled x w (some f) in
    let f_pos : Positive f = omega (arith, t) in
    let pos = settled-Positive x w f p t f_pos in
    let fits : w ≤ᶠ f = grind (arith, mul-le-mul_right total le) in
    let below = round-le e f pos (settled-le-free x w f p t f_pos) in
    (
      le,
      round_4-den e,
      round-le-headroom x w f pos,
      grind (arith, below),
      λ h.
          let fits_headroom : w ≤ᶠ headroom = omega (arith, h) in
          round-ge e w pos (le-settled x w f fits fits_headroom),
    )

nonzero : (total : ℕ) → 0 < total → (total == 0) ≡ false
nonzero total t = ground (arith, t)

minimum_utilization-den :
    (o : Outside) (path : String) (len total : ℕ) (quantization : Option String)
    → 0 < total
    → Positive (minimum_utilization o path len total quantization)
unfolding minimum_utilization
minimum_utilization-den o path len total quantization t = rw (nonzero total t) t

weights_only_lem :
    (o : Outside) (path : String) (total : ℕ) (quantization : Option String)
    → 0 < total
    → weights_only_utilization o path total quantization
      ≡ record { num = estimate_weight o path quantization; den = total }
unfolding weights_only_utilization
weights_only_lem o path total quantization t = rw (nonzero total t) refl

share_of_free_lem :
    (total free : ℕ)
    → 0 < total
    → share_of_free total (some free) ≡ some (record { num = 98 * free; den = 100 * total })
unfolding share_of_free
share_of_free_lem total free t = rw (nonzero total t) refl

too_heavy_lem :
    (weight total free : ℕ)
    → 0 < total
    → too_heavy weight total (some free) ≡ ltb (98 * free) (100 * weight)
unfolding too_heavy
too_heavy_lem weight total free t = rw (nonzero total t) refl

-- The sizing on a weight, from the share of the footprint on.
size-Sized :
    (footprint : Fraction) (cap : Option Fraction) (weight total free : ℕ)
    → Positive footprint
    → PositiveIf cap
    → 0 < total
    → Sized weight total free (
        if ltb (98 * free) (100 * weight)
        then none
        else some (
            round_4 (
              exact_utilization footprint
                (record { num = weight; den = total })
                (some (record { num = 98 * free; den = 100 * total }))
                cap)))
unfolding exact_utilization
size-Sized footprint cap weight total free p s t =
    let f : Fraction = record { num = 98 * free; den = 100 * total } in
    elim (Bool-cases (ltb (98 * free) (100 * weight))) [
      | inl e ↦ rw e (ground (arith, e))
      | inr e ↦ rw e (
          share-Sized (limited (limited footprint (some f)) cap) weight total free
            (limited-Positive (limited footprint (some f)) cap
              (limited-Positive footprint (some f) p (omega (arith, t))) s)
            t (ground (arith, e)))
    ]

-- On a GPU whose free memory is known, with a ceiling of the user's (if any) that is a number: the
-- sizing refuses exactly a model whose weights are more than 0.98 of what is free, and else gives a
-- share of at most 0.92 that takes at most 0.98 of what is free and covers weights that fit the
-- headroom, each up to half of the fourth digit that it rounds to.
pub single_engine_utilization-Sized :
    (o : Outside) (config : SizedModel) (total free : ℕ)
    → 0 < total
    → Sensible config
    → Sized
        (estimate_weight o config.model_path config.quantization)
        total
        free
        (single_engine_utilization o config total (some free))
unfolding single_engine_utilization
single_engine_utilization-Sized o config total free t s =
    let weight = estimate_weight o config.model_path config.quantization in
    rw
      (
        too_heavy_lem weight total free t,
        share_of_free_lem total free t,
        weights_only_lem o config.model_path total config.quantization t,
      )
      (size-Sized
        (minimum_utilization o config.model_path (or_num config.max_model_len 2048) total
          config.quantization)
        (user_util_cap config) weight total free
        (minimum_utilization-den o config.model_path (or_num config.max_model_len 2048) total
          config.quantization t)
        s t)

minimum_utilization-Positive :
    (o : Outside) (path : String) (len total : ℕ) (quantization : Option String)
    → Positive (minimum_utilization o path len total quantization)
unfolding minimum_utilization
minimum_utilization-Positive o path len total quantization = ground arith

weights_only-Positive :
    (o : Outside) (path : String) (total : ℕ) (quantization : Option String)
    → Positive (weights_only_utilization o path total quantization)
unfolding weights_only_utilization
weights_only-Positive o path total quantization = ground arith

share_of_free-PositiveIf : (total : ℕ) (free : Option ℕ) → PositiveIf (share_of_free total free)
unfolding share_of_free
share_of_free-PositiveIf total none = tt
share_of_free-PositiveIf total (some free) = elim (Bool-cases (total == 0)) [
  | inl e ↦ rw e tt
  | inr e ↦ rw e (ground (arith, e))
]

rounded-le :
    (footprint weights : Fraction) (from_free user_cap : Option Fraction)
    → Positive footprint
    → Positive weights
    → PositiveIf from_free
    → PositiveIf user_cap
    → (round_4 (exact_utilization footprint weights from_free user_cap)).num ≤ 9200
unfolding round_4 exact_utilization
rounded-le footprint weights from_free user_cap p w f c =
    let x = limited (limited footprint from_free) user_cap in
    let y = limited (max_share x weights) from_free in
    let x_pos =
      limited-Positive (limited footprint from_free) user_cap
        (limited-Positive footprint from_free p f) c in
    let y_pos =
      limited-Positive (max_share x weights) from_free (max_share-Positive x weights x_pos w) f in
    let e = min_share y headroom in
    nearest-le (10000 * e.num) e.den 9200 (min_share-Positive y headroom y_pos (omega arith))
      (omega (arith, min_share-le_right y headroom))

-- With any amount of memory, known to be free or not.
pub utilization-le-headroom :
    (o : Outside) (config : SizedModel) (total : ℕ) (free : Option ℕ) (u : Fraction)
    → Sensible config
    → single_engine_utilization o config total free ≡ some u
    → u.num ≤ 9200
unfolding single_engine_utilization
utilization-le-headroom o config total free u s e = ground (
  arith,
  e,
  rounded-le
      (minimum_utilization o config.model_path (or_num config.max_model_len 2048) total
        config.quantization)
      (weights_only_utilization o config.model_path total config.quantization)
      (share_of_free total free) (user_util_cap config)
      (minimum_utilization-Positive o config.model_path (or_num config.max_model_len 2048) total
        config.quantization)
      (weights_only-Positive o config.model_path total config.quantization)
      (share_of_free-PositiveIf total free) s,
)
