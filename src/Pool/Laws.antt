-- ===== src/Pool/Laws.antt =====
-- What the pool's views say of one another.
use inference_x.Prelude.{
  String, ◌≡◌, refl, ap, inl, inr, Bool, List, [], ◌∷◌, arith, all, any, map, is_some, str_eq,
  if◌then◌else◌, Bool-cases,
}
use inference_x.Prelude.Dict
use inference_x.Prelude.Dict.{Dict}
use inference_x.Pool.{EnginePool, get, loaded_models, all_healthy, health_status}

abbrev pub names_it : String → List String → Bool
names_it name = any (λ j. str_eq j name)

get-keys {ℓ} :
    {V : Type ℓ} (d : Dict V) (name : String)
    → is_some (Dict.get d name) ≡ names_it name (Dict.keys d)
unfolding Dict.get Dict.keys
get-keys [] name = refl
get-keys ((j, v) ∷ d) name = ground (arith, get-keys d name)

module _ {E : Type 0} where
  -- A model has an engine exactly if the pool lists it as loaded.
  pub get-loaded_models :
      (pool : EnginePool E) (name : String)
      → is_some (get pool name) ≡ names_it name (loaded_models pool)
  unfolding get loaded_models
  get-loaded_models pool name = get-keys pool.engines name

  statuses :
      (is_healthy : E → Bool) (d : Dict E)
      → all is_healthy (Dict.values d)
        ≡ all
            (λ s. str_eq s "ok")
            (Dict.values {V = String}
              (map (λ e. (e.0, (if is_healthy e.1 then "ok" else "unavailable"))) d))
  unfolding Dict.values
  statuses is_healthy [] = refl
  statuses is_healthy ((j, e) ∷ d) = elim (Bool-cases (is_healthy e)) [
    | inl h ↦ rw (h) (statuses is_healthy d)
    | inr h ↦ rw (h) refl
  ]

  same_names :
      (is_healthy : E → Bool) (d : Dict E)
      → Dict.keys {V = String}
          (map (λ e. (e.0, (if is_healthy e.1 then "ok" else "unavailable"))) d)
        ≡ Dict.keys d
  unfolding Dict.keys
  same_names is_healthy [] = refl
  same_names is_healthy ((j, e) ∷ d) = ap (◌∷◌ j) (same_names is_healthy d)

  -- The pool is healthy exactly if every model's status is "ok", and it reports a status for each
  -- loaded model, in the same order.
  pub all_healthy-health_status :
      (is_healthy : E → Bool) (pool : EnginePool E)
      → (all_healthy is_healthy pool
          ≡ all (λ s. str_eq s "ok") (Dict.values (health_status is_healthy pool)))
        × (Dict.keys (health_status is_healthy pool) ≡ loaded_models pool)
  unfolding all_healthy health_status loaded_models
  all_healthy-health_status is_healthy pool =
      (statuses is_healthy pool.engines, same_names is_healthy pool.engines)
