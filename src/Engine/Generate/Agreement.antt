-- ===== src/Engine/Generate/Agreement.antt =====
-- The streamed and the non-streamed answer of one run of vLLM agree.
use mathlib.Core.List.{append-nil, append_assoc}
use inference_x.Prelude.{
  ℕ, String, true, false, Option, none, some, List, [], ◌∷◌, ◌++◌, map, str_eq, eq_iff, leb, ◌≡◌,
  ◌≢◌, refl, ap, sym, ◌∙◌, inl, inr, Bool-cases, All,
}
use inference_x.Schemas.{ChatCompletionResponse}
use inference_x.Chat.Complete.{responds}
use inference_x.Chat.Stream.{EngineStep, yields}
use inference_x.Chat.Stream.Protocol.{text_chunk, last_chunk, texts}
use inference_x.Engine.Output.{
  CompletionOutput, RequestOutput, TerminalMetadata, finish_of, derive_terminal_metadata,
}
use inference_x.Engine.Chunks.{
  BackendStep, gives, breaks, ChunkStep, gave, or_empty, delta, content_chunk, terminal_chunk,
  stream_chunks, seen, generate_stream,
}
use inference_x.Engine.Chunks.Rejoin.{contents}
use inference_x.Engine.Generate.{
  Collected, nothing_yet, concat, completion_timeout, narrow, add_content, add_terminal, collect,
  respond, after_loop, generate,
}

-- A step that gives an output which is not the last, before the deadline.
abbrev pub Partial : BackendStep → Type 0
Partial (breaks at exc) = ⊥
Partial (gives at output) = (output.finished ≡ false) × (leb completion_timeout at ≡ false)

-- A text that is streamed before the deadline.
abbrev Timely : ℕ × String → Type 0
Timely (at, s) = (s ≢ "") × (leb completion_timeout at ≡ false)

abbrev timed : List (ℕ × String) → List ChunkStep → List ChunkStep
timed [] rest = rest
timed ((at, s) ∷ ts) rest = gave at (text_chunk s) ∷ timed ts rest

abbrev text_list : List (ℕ × String) → List String
text_list = map (λ t. t.1)

content_chunk-timed :
    (at : ℕ) (s : String) (rest : List ChunkStep)
    → leb completion_timeout at ≡ false
    → (ts : List (ℕ × String)) × (content_chunk at s ++ rest ≡ timed ts rest) × All Timely ts
unfolding content_chunk
content_chunk-timed at s rest h = elim (Bool-cases (str_eq s "")) [
  | inl e ↦ ([], rw e refl, tt)
  | inr e ↦ ((at, s) ∷ [], rw e refl, ((λ p. cc (e, (eq_iff s "").1 p), h), tt))
]

timed-append :
    (a b : List (ℕ × String)) (rest : List ChunkStep) → timed (a ++ b) rest ≡ timed a (timed b rest)
timed-append [] b rest = refl
timed-append ((at, s) ∷ a) b rest = ap (◌∷◌ (gave at (text_chunk s))) (timed-append a b rest)

seen-timed :
    (ts : List (ℕ × String)) (rest : List ChunkStep)
    → seen (timed ts rest) ≡ texts (text_list ts) (seen rest)
seen-timed [] rest = refl
seen-timed ((at, s) ∷ ts) rest = ap (◌∷◌ (yields (text_chunk s))) (seen-timed ts rest)

contents-timed :
    (ts : List (ℕ × String)) (rest : List ChunkStep)
    → contents (timed ts rest) ≡ text_list ts ++ contents rest
contents-timed [] rest = refl
contents-timed ((at, s) ∷ ts) rest = ap (◌∷◌ s) (contents-timed ts rest)

collect-timed :
    (c : Collected) (ts : List (ℕ × String)) (rest : List ChunkStep)
    → All Timely ts
    → collect c (timed ts rest)
      ≡ collect (record c { generated_parts = c.generated_parts ++ text_list ts }) rest
unfolding collect add_content add_terminal
collect-timed c [] rest h =
    ap (λ l. collect (record c { generated_parts = l }) rest) (sym (append-nil c.generated_parts))
collect-timed c ((at, s) ∷ ts) rest h = elim (Bool-cases (str_eq s "")) [
  | inl e ↦ absurd (h.0.0 ((eq_iff s "").0 e))
  | inr e ↦
      rw (h.0.1, e)
        (collect-timed (record c { generated_parts = c.generated_parts ++ (s ∷ []) }) ts rest h.1
          ∙ ap (λ l. collect (record c { generated_parts = l }) rest)
              (append_assoc c.generated_parts (s ∷ []) (text_list ts)))
]

-- What is streamed before the last output, and the text before it.
abbrev Streamed : String → List BackendStep → List BackendStep → Type 0
Streamed previous pre rest =
    (ts : List (ℕ × String)) × (text : String) × (stream_chunks previous (pre ++ rest)
      ≡ timed ts (stream_chunks text rest))
    × All Timely ts

All-append-Timely : (a b : List (ℕ × String)) → All Timely a → All Timely b → All Timely (a ++ b)
All-append-Timely [] b p q = q
All-append-Timely (t ∷ a) b p q = (p.0, All-append-Timely a b p.1 q)

pre-Streamed :
    (previous : String) (pre rest : List BackendStep) → All Partial pre → Streamed previous pre rest
unfolding stream_chunks terminal_chunk
pre-Streamed previous [] rest h = ([], previous, refl, tt)
pre-Streamed previous (breaks at exc ∷ pre) rest h = absurd h.0
pre-Streamed previous (gives at output ∷ pre) rest h =
    on_outputs (λ p. pre-Streamed p pre rest h.1) output.outputs
  where
    on_outputs :
        ((p : String) → Streamed p pre rest)
        → (cs : List CompletionOutput)
        → (ts : List (ℕ × String)) × (text : String) × ((elim cs as (λ _. List ChunkStep) [
          | [] ↦ stream_chunks previous (pre ++ rest)
          | completion ∷ _ ↦
              content_chunk at (delta previous (or_empty completion.text))
              ++ (terminal_chunk at output completion
                  ++ stream_chunks (or_empty completion.text) (pre ++ rest))
        ])
            ≡ timed ts (stream_chunks text rest))
          × All Timely ts
    on_outputs later [] = later previous
    on_outputs later (completion ∷ _) =
        let text = or_empty completion.text in
        let l = later text in
        let c =
          content_chunk-timed at (delta previous text) (stream_chunks text (pre ++ rest)) h.0.1 in
        (
          c.0 ++ l.0,
          l.1,
          rw h.0.0 (c.1 ∙ ap (timed c.0) l.2 ∙ sym (timed-append c.0 l.0 (stream_chunks l.1 rest))),
          All-append-Timely c.0 l.0 c.2 l.3,
        )

narrow-finish_of : (reason : Option String) → narrow (finish_of reason) ≡ finish_of reason
unfolding narrow finish_of
narrow-finish_of none = refl
narrow-finish_of (some reason) = elim (Bool-cases (str_eq reason "stop")) [
  | inl e ↦ rw e refl
  | inr e ↦ rw e refl
]

narrow-metadata :
    (output : RequestOutput) (completion : CompletionOutput)
    → narrow (derive_terminal_metadata output completion).finish
      ≡ (derive_terminal_metadata output completion).finish
unfolding derive_terminal_metadata
narrow-metadata output completion = narrow-finish_of completion.finish_reason

-- What the terminal chunk carries.
abbrev pub terminal_step : TerminalMetadata → EngineStep
terminal_step m = yields (last_chunk m.finish (some m.usage) m.timing)

-- The response of `generate` with a text.
abbrev pub response_of : String → String → TerminalMetadata → ChatCompletionResponse
response_of model text m = record {
  model = model;
  content = text;
  finish_reason = m.finish;
  usage = m.usage;
  timing = m.timing;
  resolved = none;
  warnings = [];
}

last-timed :
    (text : String) (at : ℕ) (output : RequestOutput) (completion : CompletionOutput)
    (others : List CompletionOutput)
    → leb completion_timeout at ≡ false
    → output.finished ≡ true
    → output.outputs ≡ completion ∷ others
    → (ts : List (ℕ × String)) × (stream_chunks text (gives at output ∷ [])
        ≡ timed ts (terminal_chunk at output completion))
      × All Timely ts
unfolding stream_chunks
last-timed text at output completion others h fin o =
    let c =
      content_chunk-timed at (delta text (or_empty completion.text))
        (terminal_chunk at output completion ++ []) h in
    (c.0, rw o (c.1 ∙ ap (timed c.0) (append-nil (terminal_chunk at output completion))), c.2)

-- The chunks of a run that reaches a finished output: the texts, and the terminal chunk.
run-timed :
    (pre : List BackendStep) (at : ℕ) (output : RequestOutput) (completion : CompletionOutput)
    (others : List CompletionOutput)
    → All Partial pre
    → leb completion_timeout at ≡ false
    → output.finished ≡ true
    → output.outputs ≡ completion ∷ others
    → (ts : List (ℕ × String)) × (stream_chunks "" (pre ++ (gives at output ∷ []))
        ≡ timed ts (terminal_chunk at output completion))
      × All Timely ts
run-timed pre at output completion others h t fin o =
    let p = pre-Streamed "" pre (gives at output ∷ []) h in
    let l = last-timed p.1 at output completion others t fin o in
    (
      p.0 ++ l.0,
      p.2 ∙ ap (timed p.0) l.1 ∙ sym (timed-append p.0 l.0 (terminal_chunk at output completion)),
      All-append-Timely p.0 l.0 p.3 l.2,
    )

Timely-nonempty : (ts : List (ℕ × String)) → All Timely ts → All (λ s. s ≢ "") (text_list ts)
Timely-nonempty [] h = tt
Timely-nonempty (t ∷ ts) h = (h.0.0, Timely-nonempty ts h.1)

seen-terminal :
    (at : ℕ) (output : RequestOutput) (completion : CompletionOutput)
    → output.finished ≡ true
    → seen (terminal_chunk at output completion)
      ≡ terminal_step (derive_terminal_metadata output completion) ∷ []
unfolding terminal_chunk
seen-terminal at output completion fin = rw fin refl

collect-terminal :
    (c : Collected) (at : ℕ) (output : RequestOutput) (completion : CompletionOutput)
    → leb completion_timeout at ≡ false
    → output.finished ≡ true
    → collect c (terminal_chunk at output completion) ≡ (
      record c {
        finish = (derive_terminal_metadata output completion).finish;
        usage = some (derive_terminal_metadata output completion).usage;
        timing = (derive_terminal_metadata output completion).timing;
      },
      none,
    )
unfolding terminal_chunk collect add_content add_terminal
collect-terminal c at output completion h fin =
    rw (fin, h) (rw (narrow-metadata output completion) refl)

generate-timed :
    (model : String) (steps : List BackendStep) (ts : List (ℕ × String)) (at : ℕ)
    (output : RequestOutput) (completion : CompletionOutput)
    → leb completion_timeout at ≡ false
    → output.finished ≡ true
    → stream_chunks "" steps ≡ timed ts (terminal_chunk at output completion)
    → All Timely ts
    → generate true model steps
      ≡ responds
          (response_of model (concat (text_list ts)) (derive_terminal_metadata output completion))
unfolding generate nothing_yet respond
generate-timed model steps ts at output completion h fin e t =
    let c =
      collect-timed nothing_yet ts (terminal_chunk at output completion) t
      ∙ collect-terminal (record nothing_yet { generated_parts = text_list ts }) at output
          completion h fin in
    ap (after_loop model) (ap (collect nothing_yet) e ∙ c)

-- When vLLM gives outputs that are not finished, and then a finished one with a completion, all
-- before the deadline, the stream is nonempty texts and then one terminal chunk, and the response of
-- `generate` has those texts joined together and the finish reason, usage and timing of that chunk.
pub generate-agrees :
    (model : String) (pre : List BackendStep) (at : ℕ) (output : RequestOutput)
    (completion : CompletionOutput) (others : List CompletionOutput)
    → All Partial pre
    → leb completion_timeout at ≡ false
    → output.finished ≡ true
    → output.outputs ≡ completion ∷ others
    → (ss : List String) × All (λ s. s ≢ "") ss
      × (seen (generate_stream true (pre ++ (gives at output ∷ [])))
          ≡ texts ss (terminal_step (derive_terminal_metadata output completion) ∷ []))
      × (generate true model (pre ++ (gives at output ∷ []))
          ≡ responds (response_of model (concat ss) (derive_terminal_metadata output completion)))
unfolding generate_stream
generate-agrees model pre at output completion others h t fin o =
    let r = run-timed pre at output completion others h t fin o in
    (
      text_list r.0,
      Timely-nonempty r.0 r.2,
      ap seen r.1
          ∙ seen-timed r.0 (terminal_chunk at output completion)
          ∙ ap (texts (text_list r.0)) (seen-terminal at output completion fin),
      generate-timed model (pre ++ (gives at output ∷ [])) r.0 at output completion t fin r.1 r.2,
    )
