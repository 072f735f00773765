-- ===== src/Prelude/Dict.antt =====
-- Python's `dict` with text keys, in insertion order: a new key goes to the end, and a write to a
-- key that is there keeps its place.
use Prim.Native.String.{String}
use mathlib.Core.Path.{◌≡◌, refl}
use mathlib.Core.Bool.{Bool}
use mathlib.Core.Option.{Option, none, some}
use mathlib.Core.List.{List, [], ◌∷◌, map}
use native.Mathlib.Omega.{arith}
use text.Mathlib.Text.{◌==◌}
use text.Mathlib.TextEquality.{eq_iff}
use inference_x.Prelude.Tests.{if◌then◌else◌, is_some}

abbrev pub Dict {ℓ} : Type ℓ → Type ℓ
Dict V = List (String × V)

module _ {ℓ} {V : Type ℓ} where
  -- d.get(k)
  unfoldable pub get : Dict V → String → Option V
  get [] k = none
  get ((j, v) ∷ d) k = if j == k then some v else get d k

  -- d[k] = v
  unfoldable pub put : Dict V → String → V → Dict V
  put [] k v = (k, v) ∷ []
  put ((j, w) ∷ d) k v = if j == k then (j, v) ∷ d else (j, w) ∷ put d k v

  -- k in d
  unfoldable pub has : Dict V → String → Bool
  unfolding get
  has d k = is_some (get d k)

  -- list(d), in insertion order
  unfoldable pub keys : Dict V → List String
  keys = map (λ e. e.0)

  -- list(d.values())
  unfoldable pub values : Dict V → List V
  values = map (λ e. e.1)

  pub get-put :
      (d : Dict V) (k j : String) (v : V) → get (put d k v) j ≡ (if k == j then some v else get d j)
  unfolding get put
  get-put [] k j v = refl
  get-put ((i, w) ∷ d) k j v = ground (arith, eq_iff k j, eq_iff i k, eq_iff i j, get-put d k j v)

  pub get-put_self : (d : Dict V) (k : String) (v : V) → get (put d k v) k ≡ some v
  get-put_self d k v = ground (arith, get-put d k k v, eq_iff k k)

  pub has-get : (d : Dict V) (k : String) → has d k ≡ is_some (get d k)
  unfolding has
  has-get d k = refl
