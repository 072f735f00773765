-- ===== src/Registry/Laws.antt =====
-- What the registry promises its clients.
use inference_x.Prelude.{
  String, ◌≡◌, refl, Option, none, some, List, [], ◌∷◌, foldl, str_eq, if◌then◌else◌, is_some,
}
use inference_x.Prelude.Dict
use inference_x.Prelude.Dict.{Dict}
use inference_x.Schemas.{ModelEntry}
use inference_x.Registry.{create, get, contains}

-- The last entry of a name in the configuration.
abbrev pub last_named : List ModelEntry → String → Option ModelEntry → Option ModelEntry
last_named [] name found = found
last_named (m ∷ ms) name found = last_named ms name (if str_eq m.name name then some m else found)

get-foldl :
    (ms : List ModelEntry) (d : Dict ModelEntry) (name : String)
    → Dict.get (foldl (λ d m. Dict.put d m.name m) d ms) name ≡ last_named ms name (Dict.get d name)
get-foldl [] d name = refl
get-foldl (m ∷ ms) d name =
    rw (get-foldl ms (Dict.put d m.name m) name, Dict.get-put d m.name name m) refl

-- A lookup gives the last entry of that name in the configuration, and fails exactly if there is
-- none; membership agrees with it.
pub get-create :
    (ms : List ModelEntry) (name : String)
    → (get (create ms) name ≡ last_named ms name none)
      × (contains (create ms) name ≡ is_some (last_named ms name none))
unfolding get create contains Dict.get Dict.has
get-create ms name = (get-foldl ms [] name, rw (get-foldl ms [] name) refl)
