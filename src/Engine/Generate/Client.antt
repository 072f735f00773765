-- ===== src/Engine/Generate/Client.antt =====
-- The engine under the chat service: what the client of a stream receives, against the response that
-- the same run gives without streaming.
use Prim.Native.String.{◌++◌ as text_append}
use text.Mathlib.TextLemmas as Text
use inference_x.Prelude.{
  ℕ, String, true, false, none, some, List, [], ◌∷◌, ◌++◌, map, leb, ◌≡◌, ◌≢◌, refl, ap, sym, ◌∙◌,
  All, arith,
}
use inference_x.Schemas.{ChatCompletionRequest}
use inference_x.Admission.{AdmissionResult}
use inference_x.Chat.Complete.{responds}
use inference_x.Chat.Stream.{
  EngineStep, yields, stalls, fails, prologue, content, terminal, done, closed, trace,
}
use inference_x.Chat.Stream.Protocol.{emitted, texts, echo, usage_if_asked, stream_protocol}
use inference_x.Engine.Output.{
  CompletionOutput, RequestOutput, TerminalMetadata, derive_terminal_metadata,
}
use inference_x.Engine.Chunks.{
  BackendStep, gives, breaks, ChunkStep, gave, failed, or_empty, stream_chunks, seen,
  generate_stream, awaited,
}
use inference_x.Engine.Chunks.InTime.{InTime, awaited-seen}
use inference_x.Engine.Chunks.Rejoin.{contents, Growing, final_text, stream-rejoins}
use inference_x.Engine.Generate.{concat, completion_timeout, generate}
use inference_x.Engine.Generate.Agreement.{Partial, terminal_step, response_of, generate-agrees}

-- The contents that a stream delivers.
abbrev delivered : List EngineStep → List String
delivered [] = []
delivered (yields chunk ∷ steps) = chunk.content ∷ delivered steps
delivered (stalls ∷ steps) = delivered steps
delivered (fails ∷ steps) = delivered steps

delivered-seen : (steps : List ChunkStep) → delivered (seen steps) ≡ contents steps
delivered-seen [] = refl
delivered-seen (gave at chunk ∷ steps) = ap (◌∷◌ chunk.content) (delivered-seen steps)
delivered-seen (failed at exc ∷ steps) = delivered-seen steps

concat-texts :
    (ss : List String) (m : TerminalMetadata)
    → concat (delivered (texts ss (terminal_step m ∷ []))) ≡ concat ss
concat-texts [] m = Text.nil-append ""
concat-texts (s ∷ ss) m = ap (text_append s) (concat-texts ss m)

final_text-append :
    (previous : String) (pre : List BackendStep) (at : ℕ) (output : RequestOutput)
    (completion : CompletionOutput) (others : List CompletionOutput)
    → All Partial pre
    → output.outputs ≡ completion ∷ others
    → final_text previous (pre ++ (gives at output ∷ [])) ≡ or_empty completion.text
final_text-append previous [] at output completion others h o = rw o refl
final_text-append previous (breaks _ _ ∷ pre) at output completion others h o = absurd h.0
final_text-append previous (gives _ shown ∷ pre) at output completion others h o =
    on_outputs shown.outputs (λ p. final_text-append p pre at output completion others h.1 o)
  where
    on_outputs :
        (cs : List CompletionOutput)
        → ((p : String) → final_text p (pre ++ (gives at output ∷ [])) ≡ or_empty completion.text)
        → (elim cs as (λ _. String) [
          | [] ↦ final_text previous (pre ++ (gives at output ∷ []))
          | c ∷ _ ↦ final_text (or_empty c.text) (pre ++ (gives at output ∷ []))
        ])
          ≡ or_empty completion.text
    on_outputs [] later = later previous
    on_outputs (c ∷ _) later = later (or_empty c.text)

-- When vLLM gives outputs that are not finished, and then a finished one with a completion, before the
-- deadline of `generate`, each text goes on from the one before, and each chunk of the stream comes
-- within the service's timeout after the one before (or there is none), then the client of the stream
-- gets the prologue with the resolved request and the warnings, nonempty texts that join to the
-- completion's text, the terminal event with its finish reason, its usage if asked for, and the end
-- marker, however long the service takes between two chunks; and `generate` responds with that text,
-- finish reason and usage.
pub client_gets_completion :
    (request : ChatCompletionRequest) (admitted : AdmissionResult) (model : String) (timeout : ℕ)
    (delay : ℕ → ℕ) (pre : List BackendStep) (at : ℕ) (output : RequestOutput)
    (completion : CompletionOutput) (others : List CompletionOutput)
    → All Partial pre
    → leb completion_timeout at ≡ false
    → output.finished ≡ true
    → output.outputs ≡ completion ∷ others
    → Growing "" (pre ++ (gives at output ∷ []))
    → InTime timeout 0 (generate_stream true (pre ++ (gives at output ∷ [])))
    → (ss : List String) × All (λ s. s ≢ "") ss
      × (concat ss ≡ or_empty completion.text)
      × (emitted (
            trace request admitted
              (awaited timeout delay 0 (generate_stream true (pre ++ (gives at output ∷ []))))
              none
              closed)
          ≡ prologue (echo request admitted) admitted.warnings
            ∷ (map content ss
                ++ (terminal (derive_terminal_metadata output completion).finish
                    ∷ (usage_if_asked request.stream_options
                          (some (derive_terminal_metadata output completion).usage)
                          (derive_terminal_metadata output completion).timing
                        ++ done ∷ []))))
      × (generate true model (pre ++ (gives at output ∷ []))
          ≡ responds (
              response_of model
                (or_empty completion.text)
                (derive_terminal_metadata output completion)))
unfolding generate_stream
client_gets_completion request admitted model timeout delay pre at output completion others h t fin
      o g soon =
    let m = derive_terminal_metadata output completion in
    let steps = pre ++ (gives at output ∷ []) in
    let a = generate-agrees model pre at output completion others h t fin o in
    let joined : concat a.0 ≡ or_empty completion.text =
      sym (concat-texts a.0 m)
      ∙ ap (λ l. concat (delivered l)) (sym a.2)
      ∙ ap concat (delivered-seen (stream_chunks "" steps))
      ∙ stream-rejoins steps g
      ∙ final_text-append "" pre at output completion others h o in
    (
      a.0,
      a.1,
      joined,
      ap (λ l. emitted (trace request admitted l none closed))
            (awaited-seen timeout delay 0 0 (generate_stream true steps) (omega arith) soon ∙ a.2)
          ∙ stream_protocol request admitted a.0 m.finish (some m.usage) m.timing a.1,
      a.3 ∙ ap (λ s. responds (response_of model s m)) joined,
    )
