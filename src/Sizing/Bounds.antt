-- ===== src/Sizing/Bounds.antt =====
-- Bounds of the estimate of a model's weights.
use mathlib.Core.Option.{some-injective}
use inference_x.Prelude.{
  ℕ, ◌+◌, ◌-◌, ◌*◌, ◌≤◌, ◌≡◌, refl, subst, inl, inr, String, Bool, Option, none, some, List, [],
  ◌∷◌, arith, leb, leb→le, str_eq, ◌==◌, Bool-cases, All,
}
use inference_x.Sizing.{
  Outside, HfConfig, full_bytes, quant_bytes, first_value, or_else, bytes_per_param,
  estimate_weight, priced, embedding_param_count, params_of, params_from_name_or_path,
  hf_config_dict,
}

first_value-le :
    (p : String → Bool) (n : ℕ) (table : List (String × ℕ)) (v : ℕ)
    → All (λ kv. kv.1 ≤ n) table
    → first_value p table ≡ some v
    → v ≤ n
first_value-le p n [] v h e = absurd (ground (arith, e))
first_value-le p n ((k, w) ∷ rest) v h e = elim (Bool-cases (p k)) [
  | inl t ↦ subst (λ z. z ≤ n) (some-injective w v (rw t at e)) h.0
  | inr f ↦ first_value-le p n rest v h.1 (rw f at e)
]

quant_bytes-le : All (λ kv. kv.1 ≤ full_bytes) quant_bytes
quant_bytes-le = (
  omega arith,
  (
    omega arith,
    (
      omega arith,
      (
        omega arith,
        (
          omega arith,
          (omega arith, (omega arith, (omega arith, (omega arith, (omega arith, tt))))),
        ),
      ),
    ),
  ),
)

or_else-le :
    (p : String → Bool) (d : ℕ)
    → d ≤ full_bytes
    → or_else (first_value p quant_bytes) d ≤ full_bytes
or_else-le p d h = by_value (first_value p quant_bytes) refl
  where
    by_value : (v : Option ℕ) → first_value p quant_bytes ≡ v → or_else v d ≤ full_bytes
    by_value none e = h
    by_value (some b) e = first_value-le p full_bytes quant_bytes b quant_bytes-le e

-- No scheme takes more bytes a parameter than full precision.
bytes_per_param-le : (o : Outside) (q : Option String) → bytes_per_param o q ≤ full_bytes
unfolding bytes_per_param
bytes_per_param-le o none = omega arith
bytes_per_param-le o (some q) = elim (Bool-cases (str_eq q "")) [
  | inl t ↦ rw t (omega arith)
  | inr f ↦ rw f (
      or_else-le (λ k. str_eq k (o.normalized q))
        (or_else (first_value (λ k. o.occurs_in k (o.normalized q)) quant_bytes) full_bytes)
        (or_else-le (λ k. o.occurs_in k (o.normalized q)) full_bytes (omega arith)))
]

embedding_param_count-le : (c : Option HfConfig) (n : ℕ) → embedding_param_count c n ≤ n
unfolding embedding_param_count
embedding_param_count-le none n = omega arith
embedding_param_count-le (some c) n = ground arith

mixed-le : (p e b : ℕ) → e ≤ p → b ≤ full_bytes → (p - e) * b + e * full_bytes ≤ p * full_bytes
mixed-le p e b h h' = grind arith

priced-le : (p e b : ℕ) → e ≤ p → b ≤ full_bytes → priced p e b ≤ priced p e full_bytes
unfolding priced
priced-le p e b h h' = elim (Bool-cases (p == 0)) [
  | inl t ↦ rw t (omega arith)
  | inr f ↦ rw f (elim (Bool-cases (leb full_bytes b)) [
    | inl t ↦ rw t (ground (arith, leb→le full_bytes b t))
    | inr u ↦ rw u (mixed-le p e b h h')
  ])
]

-- A quantization scheme never raises the estimate of a model's weights above that of full precision.
pub estimate_weight-le :
    (o : Outside) (path : String) (q : Option String)
    → estimate_weight o path q ≤ estimate_weight o path none
unfolding estimate_weight bytes_per_param
estimate_weight-le o path q =
    let config = hf_config_dict o path in
    let params = params_of (params_from_name_or_path o path) config in
    priced-le params (embedding_param_count config params) (bytes_per_param o q)
      (embedding_param_count-le config params) (bytes_per_param-le o q)
