-- ===== src/Startup/Single.antt =====
-- A server process that starts serves one model.
use inference_x.Prelude.{
  ℕ, ◌≡◌, ◌≢◌, refl, sym, subst, inl, inr, String, true, not, Option, some, List, [], ◌∷◌, All,
  keep, str_eq, eq_iff, arith, Bool-cases, Option-cases,
}
use inference_x.Prelude.Dict
use inference_x.Registry.{ModelRegistry}
use inference_x.Tiers.{VramTier}
use inference_x.Pool
use inference_x.Pool.{EnginePool}
use inference_x.Sizing.{Outside}
use inference_x.Startup.{
  ok, ◌>>=◌, distinct, resolve_loaded_model_names, pool_for, build_engine_pool, available_vram,
}

abbrev Same : String → String → Type 0
Same m n = str_eq n m ≡ true

All-of_keep :
    (n m : String) (ns : List String)
    → Same m n
    → All (Same m) (keep (λ x. not (str_eq x n)) ns)
    → All (Same m) ns
All-of_keep n m [] e h = tt
All-of_keep n m (x ∷ xs) e h = elim (Bool-cases (str_eq x n)) [
  | inl t ↦ (subst (Same m) (sym ((eq_iff x n).0 t)) e, All-of_keep n m xs e (rw t at h))
  | inr f ↦ let k = rw f at h in (k.0, All-of_keep n m xs e k.1)
]

-- What holds of the distinct names holds of all.
All-distinct : (m : String) (ns : List String) → All (Same m) (distinct ns) → All (Same m) ns
unfolding distinct
All-distinct m [] h = tt
All-distinct m (n ∷ ns) h = (h.0, All-distinct m ns (All-of_keep n m (distinct ns) h.0 h.1))

str_eq_self : (s : String) → str_eq s s ≡ true
str_eq_self s = (eq_iff s s).1 refl

-- What a pool that was built is: it serves one model `m` with the engine that was loaded for it, and the
-- names to load were not none and were all resolved to `m`.
abbrev pub Serves : {E : Type 0} → (String → Option E) → List String → EnginePool E → Type 0
Serves {E = E} load resolved pool =
    (m : String) × (e : E) × (Pool.loaded_models pool ≡ m ∷ [])
    × (Pool.get pool m ≡ some e)
    × (load m ≡ some e)
    × (resolved ≢ [])
    × All (λ n. str_eq n m ≡ true) resolved

module _ {E : Type 0} (load : String → Option E) where
  loaded :
      (name : String) (e : E) → Pool.loaded_models (record { engines = (name, e) ∷ [] }) ≡ name ∷ []
  unfolding Pool.loaded_models Dict.keys
  loaded name e = refl

  found : (name : String) (e : E) → Pool.get (record { engines = (name, e) ∷ [] }) name ≡ some e
  unfolding Pool.get Dict.get
  found name e = rw (str_eq_self name) refl

  nonempty :
      (name : String) (resolved : List String) → distinct resolved ≡ name ∷ [] → resolved ≢ []
  unfolding distinct
  nonempty name resolved d none_resolved =
      absurd (ground (arith, subst (λ ns. distinct ns ≡ name ∷ []) none_resolved d))

  All-Same :
      (name : String) (resolved : List String)
      → distinct resolved ≡ name ∷ []
      → All (Same name) resolved
  All-Same name resolved d =
      All-distinct name resolved (subst (All (Same name)) (sym d) (str_eq_self name, tt))

  single-Serves :
      (name : String) (e : E) (resolved : List String) (pool : EnginePool E)
      → distinct resolved ≡ name ∷ []
      → load name ≡ some e
      → record { engines = (name, e) ∷ [] } ≡ pool
      → Serves load resolved pool
  single-Serves name e resolved pool d l same =
      subst (Serves load resolved) same (
        name,
        e,
        loaded name e,
        found name e,
        l,
        nonempty name resolved d,
        All-Same name resolved d,
      )

  served :
      (names resolved : List String) (pool : EnginePool E)
      → distinct resolved ≡ names
      → pool_for load names ≡ ok pool
      → Serves load resolved pool
  unfolding pool_for Pool.create
  served [] resolved pool d e = absurd (ground (arith, e))
  served (name ∷ []) resolved pool d e = elim (Option-cases (load name)) [
    | inl l ↦ absurd (ground (arith, l, e))
    | inr (x, l) ↦ single-Serves name x resolved pool d l (ground (arith, l, e))
  ]
  served (name ∷ other ∷ names) resolved pool d e = absurd (ground (arith, e))

  -- If the engine pool is built, it serves exactly one model, the one that every name to load resolves
  -- to, with the engine loaded for it.
  pub build_engine_pool-Serves :
      (o : Outside) (registry : ModelRegistry) (tier : Option VramTier) (free total : Option ℕ)
      (loaded_models resolved : List String) (pool : EnginePool E)
      → resolve_loaded_model_names o registry tier (available_vram free total) loaded_models
        ≡ ok resolved
      → build_engine_pool load o registry tier free total loaded_models ≡ ok pool
      → Serves load resolved pool
  unfolding build_engine_pool
  build_engine_pool-Serves o registry tier free total loaded_models resolved pool r e =
      served (distinct resolved) resolved pool refl (rw (r, ◌>>=◌) at e)
