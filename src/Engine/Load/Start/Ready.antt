-- ===== src/Engine/Load/Start/Ready.antt =====
-- What an engine that is ready has passed.
use inference_x.Prelude.{
  ℕ, ◌≤◌, ◌*◌, ◌⊎◌, subst, String, Bool, true, false, Option, none, some, ◌≡◌, refl, sym, ap, inl,
  inr, arith, Option-cases,
}
use inference_x.Schemas.{at, Fraction}
use inference_x.Sizing.Utilization.{
  SizedModel, user_util_cap, single_engine_utilization, scale_model_config,
}
use inference_x.Sizing.Utilization.Bounds.{Sensible, utilization-le-headroom}
use inference_x.Engine.InitError.{CudaVram}
use inference_x.Engine.Load.{check_vram_budget, is_hf_hub_model_path}
use inference_x.Engine.Load.Access.{
  AccessError, HuggingFaceHub, InfoAnswer, info, info_raises, DownloadAnswer, downloaded,
  gated_repository, download_raises, after_download, after_info, preflight_hf_access,
}
use inference_x.Engine.Load.Start.{
  EngineSettings, EngineKwargs, VllmStart, started, start_failed, VllmEngine, Started, engine_ready,
  engine_refused, Machine, as_sized, total_vram, gated_by, engine_kwargs, kv_capacity, after_start,
  launch, with_keys, init, is_healthy,
}

-- The share `u` of the GPU is no more than what was free before the start, where that is known.
abbrev pub Affordable : Machine → Option Fraction → Type 0
Affordable machine share =
    (u : Fraction)
    → share ≡ some u
    → (vram : CudaVram) → machine.probe_now ≡ some vram
    → u.num * vram.total_gib ≤ vram.free_gib * u.den

-- With the Hub's client, a model of the Hub is there, and it is open or its config was downloaded.
abbrev pub Accessible : Machine → String → Type 0
Accessible machine path =
    (hub : HuggingFaceHub)
    → machine.hub ≡ some hub
    → is_hf_hub_model_path machine.is_absolute path ≡ true
    → (is_gated is_private : Bool) × (hub.model_info path machine.hf_token
        ≡ info is_gated is_private)
      × (((is_gated ≡ false) × (is_private ≡ false))
          ⊎ (hub.hf_hub_download path machine.hf_token ≡ downloaded))

-- All KV tokens of vLLM: so many blocks of such a size.
abbrev pub HoldsBlocks : Option ℕ → Option ℕ → Option ℕ → Type 0
HoldsBlocks num_blocks block_size tokens =
    (n b : ℕ) → num_blocks ≡ some n → block_size ≡ some b → tokens ≡ some (n * b)

-- vLLM was started with these arguments, for a model and a share that it may have, and the engine
-- reports what vLLM holds.
abbrev pub Launched : Machine → VllmEngine → EngineKwargs → Type 0
Launched machine e kwargs =
    Accessible machine kwargs.model
    × Affordable machine kwargs.gpu_memory_utilization
    × (num_blocks : Option ℕ) × (block_size : Option ℕ) × ((tokenizer : _) × (machine.start_vllm
            kwargs
          ≡ started num_blocks block_size tokenizer))
    × HoldsBlocks num_blocks block_size e.kv_capacity_tokens
    × (e.model_path ≡ kwargs.model)
    × (is_healthy false e ≡ true)

budget-Affordable :
    (machine : Machine) (share : Option Fraction)
    → check_vram_budget share machine.probe_now ≡ true
    → Affordable machine share
unfolding check_vram_budget
budget-Affordable machine share h u s vram v = ground (arith, h, s, v)

after_download-downloaded :
    (token : Option String) (d : DownloadAnswer) → after_download token d ≡ none → d ≡ downloaded
unfolding after_download
after_download-downloaded token downloaded h = refl
after_download-downloaded token gated_repository h = absurd (ground (arith, h))
after_download-downloaded token DownloadAnswer.no_repository h = absurd (ground (arith, h))
after_download-downloaded token download_raises h = absurd (ground (arith, h))

after_info-info :
    (hub : HuggingFaceHub) (path : String) (token : Option String) (a : InfoAnswer)
    → after_info hub path token a ≡ none
    → (is_gated is_private : Bool) × (a ≡ info is_gated is_private)
      × (((is_gated ≡ false) × (is_private ≡ false))
          ⊎ (hub.hf_hub_download path token ≡ downloaded))
unfolding after_info
after_info-info hub path token InfoAnswer.no_repository h = absurd (ground (arith, h))
after_info-info hub path token info_raises h = absurd (ground (arith, h))
after_info-info hub path token (info false false) h = (false, false, refl, inl (refl, refl))
after_info-info hub path token (info false true) h =
    (false, true, refl, inr (after_download-downloaded token (hub.hf_hub_download path token) h))
after_info-info hub path token (info true p) h =
    (true, p, refl, inr (after_download-downloaded token (hub.hf_hub_download path token) h))

on_hub :
    (hub : HuggingFaceHub) (is_absolute : String → Bool) (path : String) (token : Option String)
    → is_hf_hub_model_path is_absolute path ≡ true
    → preflight_hf_access (some hub) is_absolute path token ≡ none
    → after_info hub path token (hub.model_info path token) ≡ none
unfolding preflight_hf_access
on_hub hub is_absolute path token p k = rw p at k

preflight-Accessible :
    (machine : Machine) (path : String)
    → preflight_hf_access machine.hub machine.is_absolute path machine.hf_token ≡ none
    → Accessible machine path
preflight-Accessible machine path h hub c p =
    let k =
      subst (λ x. preflight_hf_access x machine.is_absolute path machine.hf_token ≡ none) c h in
    after_info-info hub path machine.hf_token (hub.model_info path machine.hf_token)
      (on_hub hub machine.is_absolute path machine.hf_token p k)

kv_capacity-HoldsBlocks :
    (num_blocks block_size : Option ℕ)
    → HoldsBlocks num_blocks block_size (kv_capacity num_blocks block_size)
unfolding kv_capacity
kv_capacity-HoldsBlocks num_blocks block_size n b x y = rw (x, y) refl

abbrev engine_in : VllmEngine → Started → VllmEngine
engine_in d (engine_ready e) = e
engine_in d (engine_refused _) = d

after_start-Launched :
    (machine : Machine) (name path : String) (s : EngineSettings) (e : VllmEngine) (v : VllmStart)
    → machine.start_vllm (engine_kwargs machine.hf_token path s) ≡ v
    → preflight_hf_access machine.hub machine.is_absolute path machine.hf_token ≡ none
    → check_vram_budget
        (engine_kwargs machine.hf_token path s).gpu_memory_utilization
        machine.probe_now
      ≡ true
    → after_start machine name path s v ≡ engine_ready e
    → Launched machine e (engine_kwargs machine.hf_token path s)
unfolding after_start engine_kwargs is_healthy
after_start-Launched machine name path s e (started n b t) v p c h =
    let same = ap (engine_in e) h in
    (
      preflight-Accessible machine path p,
      budget-Affordable machine (engine_kwargs machine.hf_token path s).gpu_memory_utilization c,
      n,
      b,
      (t, v),
      subst (HoldsBlocks n b) (ap (λ x. x.kv_capacity_tokens) same) (kv_capacity-HoldsBlocks n b),
      ap (λ x. x.model_path) (sym same),
      ap (λ x. is_healthy false x) (sym same),
    )
after_start-Launched machine name path s e (start_failed m) v p c h = absurd (ground (arith, h))

gated_by-ready :
    (access : Option AccessError) (within_budget : Bool) (next : Started) (e : VllmEngine)
    → gated_by access within_budget next ≡ engine_ready e
    → (access ≡ none) × (within_budget ≡ true) × (next ≡ engine_ready e)
gated_by-ready (some x) within_budget next e h = absurd (ground (arith, h))
gated_by-ready none false next e h = absurd (ground (arith, h))
gated_by-ready none true next e h = (refl, refl, h)

launch-Launched :
    (machine : Machine) (name path : String) (s : EngineSettings) (e : VllmEngine)
    → launch machine name path s ≡ engine_ready e
    → Launched machine e (engine_kwargs machine.hf_token path s)
unfolding launch
launch-Launched machine name path s e h =
    let kwargs = engine_kwargs machine.hf_token path s in
    let g =
      gated_by-ready (preflight_hf_access machine.hub machine.is_absolute path machine.hf_token)
        (check_vram_budget kwargs.gpu_memory_utilization machine.probe_now)
        (after_start machine name path s (machine.start_vllm kwargs)) e h in
    after_start-Launched machine name path s e (machine.start_vllm kwargs) refl g.0 g.1 g.2

with_keys-Launched :
    (machine : Machine) (s : EngineSettings) (name path : Option String) (e : VllmEngine)
    → with_keys machine s name path ≡ engine_ready e
    → (p : String) × (path ≡ some p) × Launched machine e (engine_kwargs machine.hf_token p s)
unfolding with_keys
with_keys-Launched machine s none none e h = absurd (ground (arith, h))
with_keys-Launched machine s none (some path) e h = absurd (ground (arith, h))
with_keys-Launched machine s (some name) none e h = absurd (ground (arith, h))
with_keys-Launched machine s (some name) (some path) e h =
    (path, refl, launch-Launched machine name path s e h)

-- The share that a scaled config carries.
scaled-share :
    (machine : Machine) (config scaled : SizedModel) (total : ℕ) (free : Option ℕ)
    → Sensible config
    → scale_model_config machine.outside config total free ≡ some scaled
    → (u : Fraction) × (scaled.gpu_memory_utilization ≡ some (at u)) × (u.num ≤ 9200)
unfolding scale_model_config
scaled-share machine config scaled total free s h =
    elim (Option-cases (single_engine_utilization machine.outside config total free)) [
      | inl e ↦ absurd (ground (arith, e, h))
      | inr (u, e) ↦
          (u, ground (arith, e, h), utilization-le-headroom machine.outside config total free u s e)
    ]

user_util_cap-at :
    (m : SizedModel) (u : Fraction)
    → m.gpu_memory_utilization ≡ some (at u)
    → user_util_cap m ≡ some u
unfolding user_util_cap
user_util_cap-at m u h = rw h refl

pub init-ready :
    (machine : Machine) (s : EngineSettings) (free total : Option ℕ) (e : VllmEngine)
    → Sensible (as_sized s)
    → init machine s free total ≡ engine_ready e
    → (kwargs : EngineKwargs) × (u : Fraction) × (kwargs.gpu_memory_utilization ≡ some u)
      × (u.num ≤ 9200)
      × (kwargs.max_num_seqs ≡ s.max_num_seqs)
      × (kwargs.max_num_batched_tokens ≡ s.max_num_batched_tokens)
      × Launched machine e kwargs
unfolding init engine_kwargs
init-ready machine s free total e sensible h =
    elim (Option-cases (
      scale_model_config machine.outside (as_sized s) (total_vram total machine.probe_first)
        free)) [
          | inl x ↦ absurd (ground (arith, x, h))
          | inr (sized, x) ↦
              let sh =
                scaled-share machine (as_sized s) sized (total_vram total machine.probe_first) free
                  sensible x in
              let scaled = record s { gpu_memory_utilization = sized.gpu_memory_utilization } in
              let k =
                with_keys-Launched machine scaled scaled.name scaled.model_path e
                  (ground (arith, x, h)) in
              (
                engine_kwargs machine.hf_token k.0 scaled,
                sh.0,
                user_util_cap-at (as_sized scaled) sh.0 sh.1,
                sh.2,
                refl,
                refl,
                k.2,
              )
        ]
