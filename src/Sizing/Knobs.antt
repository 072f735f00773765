-- ===== src/Sizing/Knobs.antt =====
-- src/inference_x/utils/vllm_pool_config.py, `apply_tier_knobs`: the tier's limits on an engine's
-- settings. The config dict is a record of the keys that the function reads or writes.
use inference_x.Prelude.{ℕ, ◌≤◌, ◌≡◌, refl, ap, min, Option, none, some, String, Bool, arith}
use inference_x.Tiers.{VramTier}

pub record EngineConfig : Type 0 where
  pub max_num_seqs : Option ℕ
  pub max_num_batched_tokens : Option ℕ
  pub block_size : Option ℕ
  pub kv_cache_dtype : Option String
  pub enable_prefix_caching : Option Bool

-- `min(own, limit) if own is not None else limit`
abbrev pub tighter : Option ℕ → ℕ → ℕ
tighter none limit = limit
tighter (some own) limit = min own limit

-- The tier's token budget, when it has one.
abbrev pub batched : Option ℕ → Option ℕ → Option ℕ
batched own none = own
batched own (some limit) = some (tighter own limit)

unfoldable pub apply_tier_knobs : EngineConfig → Option VramTier → EngineConfig
apply_tier_knobs config none = config
apply_tier_knobs config (some tier) = record {
  max_num_seqs = some (tighter (config.max_num_seqs) (tier.max_num_seqs));
  max_num_batched_tokens = batched (config.max_num_batched_tokens) (tier.max_num_batched_tokens);
  block_size = some (tier.block_size);
  kv_cache_dtype = some (tier.kv_cache_dtype);
  enable_prefix_caching = some (tier.enable_prefix_caching);
}

-- A limit is at most another one, where a missing one is unbounded.
abbrev pub Within : Option ℕ → Option ℕ → Type 0
Within a none = Unit
Within none (some n) = ⊥
Within (some m) (some n) = m ≤ n

tighter_idem : (own : Option ℕ) (n : ℕ) → tighter (some (tighter own n)) n ≡ tighter own n
tighter_idem none n = omega arith
tighter_idem (some m) n = omega arith

batched_idem : (own limit : Option ℕ) → batched (batched own limit) limit ≡ batched own limit
batched_idem own none = refl
batched_idem own (some n) = ap some (tighter_idem own n)

tighter-Within : (own : Option ℕ) (n : ℕ) → (tighter own n ≤ n) × Within (some (tighter own n)) own
tighter-Within none n = (omega arith, tt)
tighter-Within (some m) n = (omega arith, omega arith)

batched-Within :
    (own limit : Option ℕ) → Within (batched own limit) own × Within (batched own limit) limit
batched-Within none none = (tt, tt)
batched-Within (some m) none = (omega arith, tt)
batched-Within none (some n) = (tt, omega arith)
batched-Within (some m) (some n) = (omega arith, omega arith)

-- The limits after the tier is applied are within the tier's and within the model's own, and applying
-- the tier again changes nothing.
pub apply_tier_knobs-Within :
    (config : EngineConfig) (tier : VramTier)
    → Within ((apply_tier_knobs config (some tier)).max_num_seqs) (some (tier.max_num_seqs))
      × Within ((apply_tier_knobs config (some tier)).max_num_seqs) (config.max_num_seqs)
      × Within
          ((apply_tier_knobs config (some tier)).max_num_batched_tokens)
          (tier.max_num_batched_tokens)
      × Within
          ((apply_tier_knobs config (some tier)).max_num_batched_tokens)
          (config.max_num_batched_tokens)
      × (apply_tier_knobs (apply_tier_knobs config (some tier)) (some tier)
          ≡ apply_tier_knobs config (some tier))
unfolding apply_tier_knobs
apply_tier_knobs-Within config tier =
    let seqs = tighter-Within (config.max_num_seqs) (tier.max_num_seqs) in
    let tokens = batched-Within (config.max_num_batched_tokens) (tier.max_num_batched_tokens) in
    (
      seqs.0,
      seqs.1,
      tokens.1,
      tokens.0,
      rw
          (
            tighter_idem (config.max_num_seqs) (tier.max_num_seqs),
            batched_idem (config.max_num_batched_tokens) (tier.max_num_batched_tokens),
          )
          refl,
    )
