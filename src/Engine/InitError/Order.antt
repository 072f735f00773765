-- ===== src/Engine/InitError/Order.antt =====
-- What the order of the tests leaves for the later ones.
use Prim.Native.String.{String, ◌++◌ as text_append}
use text.Mathlib.Text.{starts_with}
use text.Mathlib.TextEquality.{starts_with_iff}
use text.Mathlib.TextLemmas.{append_assoc, nil-append, cons-append}
use text.Mathlib.TextPositions.{starts_with-append}
use inference_x.Prelude.{
  Bool, true, ◌||◌, Option, ◌≡◌, ◌≢◌, refl, sym, subst, ◌∙◌, inl, inr, arith, Bool-cases,
  if◌then◌else◌,
}
use inference_x.Engine.InitError.{
  gated, out_of_memory, free_memory, kv_cache, state_cache, CudaVram, contains, is_gated_message,
  is_free_memory_message, is_kv_cache_message, map_vllm_init_error,
}

starts_with-contains : (s t : String) → starts_with s t ≡ true → contains s t ≡ true
unfolding contains
starts_with-contains String.[] t h = h
starts_with-contains (String.◌∷◌ c s) t h = rw h refl

contains_middle :
    (a needle u : String) → contains (text_append a (text_append needle u)) needle ≡ true
unfolding contains
contains_middle String.[] needle u =
    subst (λ s. contains s needle ≡ true) (sym (nil-append (text_append needle u)))
      (starts_with-contains (text_append needle u) needle (starts_with-append needle u))
contains_middle (String.◌∷◌ c a) needle u =
    subst (λ s. contains s needle ≡ true) (sym (cons-append c a (text_append needle u)))
      (or_true (starts_with (String.◌∷◌ c (text_append a (text_append needle u))) needle)
        (contains_middle a needle u))
  where
    or_true : {b : Bool} (d : Bool) → b ≡ true → (d || b) ≡ true
    or_true d h = ground (arith, h)

contains-starts_with :
    (s a needle : String) → starts_with s (text_append a needle) ≡ true → contains s needle ≡ true
contains-starts_with s a needle h =
    let p = (starts_with_iff s (text_append a needle)).0 h in
    subst (λ t. contains t needle ≡ true) (sym (append_assoc a needle p.0) ∙ p.1)
      (contains_middle a needle p.0)

-- A text that contains the end of a pattern after the rest of it contains the end.
contains-append :
    (s a needle : String) → contains s (text_append a needle) ≡ true → contains s needle ≡ true
unfolding contains
contains-append String.[] a needle h = contains-starts_with String.[] a needle h
contains-append (String.◌∷◌ c s) a needle h =
    elim (Bool-cases (starts_with (String.◌∷◌ c s) (text_append a needle))) [
      | inl e ↦ contains-starts_with (String.◌∷◌ c s) a needle e
      | inr e ↦ let later = contains-append s a needle in ground (arith, h, e, later)
    ]

kv_cache_first :
    (lower : String) → contains lower "mamba cache blocks" ≡ true → is_kv_cache_message lower ≡ true
unfolding is_kv_cache_message
kv_cache_first lower h = rw (contains-append lower "mamba " "cache blocks" h) refl

-- A failure that reports too few Mamba cache blocks is never answered with the advice for Mamba state
-- caches, since the test for "cache blocks" comes first.
pub mamba_advice_unreached :
    (lowered : String → String) (model_name : String) (vram : Option CudaVram) (msg : String)
    → contains (lowered msg) "mamba cache blocks" ≡ true
    → map_vllm_init_error lowered model_name vram msg ≢ state_cache
unfolding map_vllm_init_error
mamba_advice_unreached lowered model_name vram msg h = rw (kv_cache_first (lowered msg) h) (
    not_state (is_gated_message msg (lowered msg))
      (contains (lowered msg) "out of memory" || contains msg "oom")
      (is_free_memory_message (lowered msg)))
  where
    not_state :
        (a b c : Bool)
        → (if a then gated else if b then out_of_memory else if c then free_memory else kv_cache)
          ≢ state_cache
    not_state a b c = ground arith
