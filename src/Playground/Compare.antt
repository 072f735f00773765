-- ===== src/Playground/Compare.antt =====
-- playground/client.py: the comparison of two models, on two servers or one after the other on one.
-- What a server answers is an argument; a RuntimeError of `chat_completion` is none.
pub mod Complete
use inference_x.Prelude.{
  ℕ, zero, suc, ◌+◌, String, Bool, true, false, Option, none, some, List, [], ◌∷◌, ◌++◌, ltb,
  str_eq, if◌then◌else◌,
}

infixl 5 ◌>>=◌
abbrev pub ◌>>=◌ : {A : Type 0} {B : Type 0} → Option A → (A → Option B) → Option B
none >>= f = none
some x >>= f = f x

pub record Prompt : Type 0 where
  pub text : String
  pub system : Option String
  pub label : Option String

-- An item of a prompts file: a text, or an object whose `text` may be missing.
pub data PromptItem : Type 0 where
  bare : String → PromptItem
  object : Option String → Option String → Option String → PromptItem

abbrev pub prompt_of : PromptItem → Option Prompt
prompt_of (bare text) = some (record { text = text; system = none; label = none })
prompt_of (object none system label) = none
prompt_of (object (some text) system label) =
    some (record { text = text; system = system; label = label })

-- `load_prompts`, on the parsed file: none is the KeyError of an object without a text.
unfoldable pub load_prompts : List PromptItem → Option (List Prompt)
load_prompts [] = some []
load_prompts (item ∷ items) = do p ← prompt_of item; ps ← load_prompts items; some (p ∷ ps)

-- What `chat_completion("ping")` does: it succeeds, or raises with a message that says, or not, that
-- another model is loaded.
pub data Ping : Type 0 where
  answered other_loaded other_error : Ping

-- The message of `preflight_compare`, if it returns one.
pub data CompareError : Type 0 where
  one_model_per_server request_failed : CompareError

abbrev refusal : Ping → Option CompareError
refusal answered = none
refusal other_loaded = some one_model_per_server
refusal other_error = some request_failed

unfoldable pub preflight_compare :
    (String → String → Ping) → String → String → String → String → Option CompareError
preflight_compare ping model_a model_b base_url_a base_url_b =
    if str_eq base_url_a base_url_b
    then if str_eq model_a model_b then none else refusal (ping base_url_b model_b)
    else none

-- How the wait for a model ends.
pub data Waited : Type 0 where
  is_loaded timed_out raised : Waited

-- A round of `wait_for_loaded_model`: the server is not healthy, or it is pinged.
pub data Probe : Type 0 where
  unhealthy : Probe
  pinged : Ping → Probe

abbrev pub probed : Probe → ℕ → Option (Waited × ℕ) → Option (Waited × ℕ)
probed unhealthy at later = later
probed (pinged answered) at later = some (is_loaded, at)
probed (pinged other_loaded) at later = later
probed (pinged other_error) at later = some (raised, at)

-- The loop, on fuel: how it ends, and when. A round takes a while, and then sleeps.
unfoldable pub wait_loop : ℕ → ℕ → ℕ → ℕ → (ℕ → ℕ × Probe) → Option (Waited × ℕ)
wait_loop zero interval deadline now probe = none
wait_loop (suc fuel) interval deadline now probe =
    let (took, found) = probe now in
    let later = wait_loop fuel interval deadline (now + took + interval) probe in
    if ltb now deadline then probed found (now + took) later else some (timed_out, now)

-- Each round sleeps, so the timeout is fuel enough.
unfoldable pub wait_for_loaded_model : (ℕ → ℕ × Probe) → ℕ → ℕ → ℕ → Option (Waited × ℕ)
unfolding wait_loop
wait_for_loaded_model probe timeout interval now =
    wait_loop (suc timeout) interval (now + timeout) now probe

module _ {R : Type 0} where
  -- The responses of the first model, up to the first error.
  unfoldable pub fetch_all : (Prompt → Option R) → List Prompt → Option (List R)
  fetch_all fetch [] = some []
  fetch_all fetch (p ∷ ps) = do r ← fetch p; rs ← fetch_all fetch ps; some (r ∷ rs)

  -- `for prompt, resp_a in zip(prompts, responses_a)`: what is printed, and whether an error ended it.
  unfoldable pub print_pairs :
      (Prompt → Option R) → List Prompt → List R → List (Prompt × R × R) × Bool
  print_pairs fetch [] rs = ([], true)
  print_pairs fetch (p ∷ ps) [] = ([], true)
  print_pairs fetch (p ∷ ps) (r ∷ rs) =
      let later = print_pairs fetch ps rs in
      elim (fetch p) [ none ↦ ([], false) | some q ↦ ((p, r, q) ∷ later.0, later.1) ]

  -- The exit code, or none if the wait raises; and the comparisons that are printed.
  abbrev pub code_of : List (Prompt × R × R) × Bool → Option ℕ × List (Prompt × R × R)
  code_of (printed, true) = (some 0, printed)
  code_of (printed, false) = (some 1, printed)

  abbrev pub second_phase :
      (Prompt → Option R) → List Prompt → List R → Waited → Option ℕ × List (Prompt × R × R)
  second_phase fetch_b prompts responses_a is_loaded =
      code_of (print_pairs fetch_b prompts responses_a)
  second_phase fetch_b prompts responses_a timed_out = (some 1, [])
  second_phase fetch_b prompts responses_a raised = (none, [])

  unfoldable pub run_compare_sequential :
      (Prompt → Option R)
      → (Prompt → Option R)
      → Waited
      → List Prompt
      → Option ℕ × List (Prompt × R × R)
  unfolding fetch_all print_pairs
  run_compare_sequential fetch_a fetch_b waited prompts = elim (fetch_all fetch_a prompts) [
    | none ↦ (some 1, [])
    | some responses_a ↦ second_phase fetch_b prompts responses_a waited
  ]

  -- `run_compare`: what is printed, if neither request fails.
  unfoldable pub run_compare :
      (Prompt → Option R) → (Prompt → Option R) → Prompt → Option (Prompt × R × R)
  run_compare fetch_a fetch_b p = do a ← fetch_a p; b ← fetch_b p; some (p, a, b)
