-- ===== src/Playground/Servers.antt =====
-- playground/server_control.py: one server process for each model, on consecutive ports. What the
-- servers answer and when the waits end are arguments; the processes that are stopped and started are
-- the actions of a run.
pub mod Serves
use inference_x.Prelude.{
  ℕ, zero, suc, ◌+◌, String, Bool, true, false, not, ◌&&◌, Option, none, some, List, [], ◌∷◌, map,
  any, all, ◌==◌, str_eq, if◌then◌else◌,
}
use inference_x.Prelude.Dict.{Dict}
use inference_x.Startup.{distinct}

-- A URL, as far as `httpx.URL(...).port` and `copy_with` tell its port from the rest.
pub record Url : Type 0 where
  pub rest : String
  pub port : Option ℕ
  -- 80 or 443, by its scheme.
  pub default_port : Option ℕ

-- `url.port or 8000`
unfoldable pub port_of : Url → ℕ
port_of url = elim url.port [ none ↦ 8000 | some p ↦ if p == 0 then 8000 else p ]

-- `copy_with(port=...)`: httpx drops a port that is the default of the scheme.
unfoldable pub with_port : Url → ℕ → Url
with_port url p = record url {
  port = elim url.default_port [ none ↦ some p | some q ↦ if p == q then none else some p ];
}

unfoldable pub target_url : Url → ℕ → Url
unfolding port_of with_port
target_url base zero = base
target_url base (suc i) = with_port base (port_of base + suc i)

pub record Target : Type 0 where
  pub model : String
  pub url : Url

-- `enumerate(wanted)`, from an index on.
abbrev pub targets_from : Url → ℕ → List String → List Target
targets_from base i [] = []
targets_from base i (m ∷ ms) =
    record { model = m; url = target_url base i } ∷ targets_from base (suc i) ms

pub data ServerAction : Type 0 where
  stop_servers : ServerAction
  start_server : String → ℕ → ServerAction

-- What the servers do; `none` stands for an exception, and so does false in `stops` and `starts`. It is
-- `fetch_loaded_models` at the beginning (a body may not parse), `stop_playground_server`,
-- `start_playground_server` (no `uv`, no log file), `wait_for_health` and `wait_for_model`.
pub record Servers : Type 0 where
  pub loaded_models : Url → Option (List String)
  pub stops : Bool
  pub starts : String → ℕ → Bool
  pub responds : Url → Option Bool
  pub loads : Url → String → Option Bool

-- `None` or a mapping is returned, or an exception is passed on.
pub data Result : Type 0 where
  returned : Option (Dict Url) → Result
  raised : Result

-- The actions, the module's flag after them, and the result.
pub record Launch : Type 0 where
  pub actions : List ServerAction
  pub started_by_playground : Bool
  pub result : Result

-- Up to the first server that has not loaded its model; none if an answer raises before.
unfoldable pub already_loaded : Servers → List Target → Option Bool
already_loaded servers [] = some true
already_loaded servers (t ∷ ts) =
    let rest = already_loaded servers ts in
    elim (servers.loaded_models t.url) [
      | none ↦ none
      | some loaded ↦ if any (λ m. str_eq m t.model) loaded then rest else some false
    ]

-- The loop of starts: those that were made, and whether it came to its end.
unfoldable pub start_all : Servers → List Target → List ServerAction × Bool
start_all servers [] = ([], true)
start_all servers (t ∷ ts) =
    let rest = start_all servers ts in
    if servers.starts t.model (port_of t.url)
    then (start_server t.model (port_of t.url) ∷ rest.0, rest.1)
    else ([], false)

-- A loop that waits for each server, up to the first wait that fails (false) or raises (none).
unfoldable pub wait_all : (Target → Option Bool) → List Target → Option Bool
wait_all wait [] = some true
wait_all wait (t ∷ ts) =
    let rest = wait_all wait ts in
    elim (wait t) [ none ↦ none | some ok ↦ if ok then rest else some false ]

abbrev pub mapping : List Target → Dict Url
mapping = map (λ t. (t.model, t.url))

abbrev pub result_of : Option Bool → Result → Result
result_of none next = raised
result_of (some false) next = returned none
result_of (some true) next = next

-- The last loop: each model is waited for on its own server.
unfoldable pub loaded_mapping : Servers → List Target → Result
unfolding wait_all
loaded_mapping servers targets =
    result_of (wait_all (λ t. servers.loads t.url t.model) targets)
      (returned (some (mapping targets)))

-- From the loop of starts on; the flag is set after it.
unfoldable pub start_targets : Servers → Bool → List Target → Launch
unfolding start_all loaded_mapping
start_targets servers started targets =
    let (made, all_started) = start_all servers targets in
    if all_started
    then record {
      actions = stop_servers ∷ made;
      started_by_playground = true;
      result =
          result_of (wait_all (λ t. servers.responds t.url) targets)
            (loaded_mapping servers targets);
    }
    else record { actions = stop_servers ∷ made; started_by_playground = started; result = raised }

-- What follows on the stop, which may raise.
unfoldable pub after_stop : Servers → Bool → List Target → Bool → Launch
unfolding start_targets
after_stop servers started targets true = start_targets servers started targets
after_stop servers started targets false = record {
  actions = stop_servers ∷ [];
  started_by_playground = started;
  result = raised;
}

-- What follows on whether every model was loaded already.
unfoldable pub after_probe : Servers → Bool → List Target → Option Bool → Launch
unfolding loaded_mapping after_stop
after_probe servers started targets none = record {
  actions = [];
  started_by_playground = started;
  result = raised;
}
after_probe servers started targets (some true) = record {
  actions = [];
  started_by_playground = started;
  result = loaded_mapping servers targets;
}
after_probe servers started targets (some false) = after_stop servers started targets servers.stops

unfoldable pub launch_targets : Servers → Bool → List Target → Launch
unfolding already_loaded after_probe
launch_targets servers started targets =
    after_probe servers started targets (already_loaded servers targets)

abbrev pub launch_wanted : Servers → Url → Bool → List String → Launch
launch_wanted servers base started [] = record {
  actions = [];
  started_by_playground = started;
  result = returned none;
}
launch_wanted servers base started (m ∷ ms) =
    launch_targets servers started (targets_from base 0 (m ∷ ms))

unfoldable pub ensure_models_loaded : Servers → Url → Bool → List String → Launch
unfolding launch_targets
ensure_models_loaded servers base started models =
    launch_wanted servers base started (distinct models)

-- `cleanup_playground_server_if_started`: the flag after it, and what it did.
unfoldable pub cleanup : Bool → Bool × List ServerAction
cleanup started = if started then (false, stop_servers ∷ []) else (false, [])
