-- ===== src/Registry.antt =====
-- src/inference_x/services/model_service.py: the models declared in models.yaml, by name. The YAML
-- parser is a library; the entries that it yields are an argument.
pub mod Laws
use inference_x.Prelude.{
  String, Bool, Option, none, some, List, [], foldl, keep, str_eq, if◌then◌else◌,
}
use inference_x.Prelude.Dict
use inference_x.Prelude.Dict.{Dict}
use inference_x.Schemas.{ModelEntry}

pub record ModelRegistry : Type 0 where
  pub models : Dict ModelEntry

-- `{m.name: m for m in models}`: a later entry of the same name replaces the earlier one.
unfoldable pub create : List ModelEntry → ModelRegistry
create entries = record { models = foldl (λ d m. Dict.put d m.name m) [] entries }

-- `none` stands for the ValueError of an unknown name.
unfoldable pub get : ModelRegistry → String → Option ModelEntry
get r name = Dict.get r.models name

unfoldable pub all : ModelRegistry → List ModelEntry
unfolding Dict.values
all r = Dict.values r.models

unfoldable pub names : ModelRegistry → List String
unfolding Dict.keys
names r = Dict.keys r.models

-- `m.family or m.name`
unfoldable pub family_of : ModelEntry → String
family_of m = elim m.family [ none ↦ m.name | some f ↦ if str_eq f "" then m.name else f ]

unfoldable pub variants : ModelRegistry → String → List ModelEntry
unfolding all family_of
variants r family = keep (λ m. str_eq (family_of m) family) (all r)

unfoldable pub contains : ModelRegistry → String → Bool
contains r name = Dict.has r.models name
