-- ===== src/Engine/Chunks/Rejoin.antt =====
-- The contents of the chunks joined together are the text that vLLM generated.
use Prim.Native.String.{◌++◌ as text_append, len, slice}
use text.Mathlib.Text.{starts_with}
use text.Mathlib.TextEquality.{starts_with_iff}
use text.Mathlib.TextLemmas.{append_assoc, append-nil, nil-append}
use text.Mathlib.TextPositions.{len-append, slice-append_right}
use inference_x.Prelude.{
  ℕ, String, true, Option, none, some, List, [], ◌∷◌, ◌++◌, str_eq, eq_iff, ◌≡◌, refl, ap, ap₂,
  subst, sym, ◌∙◌, inl, inr, Bool-cases,
}
use inference_x.Engine.Output.{CompletionOutput, RequestOutput}
use inference_x.Engine.Generate.{concat}
use inference_x.Engine.Chunks.{
  BackendStep, gives, breaks, ChunkStep, gave, failed, or_empty, delta, content_chunk,
  terminal_chunk, stream_chunks,
}

-- The text of an output that has a completion.
abbrev pub text_in : RequestOutput → Option String
text_in output = elim output.outputs [
  | [] ↦ none
  | completion ∷ _ ↦ some (or_empty completion.text)
]

-- The text that vLLM has given when its generator ends or breaks.
abbrev pub final_text : String → List BackendStep → String
final_text previous [] = previous
final_text previous (breaks at exc ∷ steps) = previous
final_text previous (gives at output ∷ steps) = elim output.outputs [
  | [] ↦ final_text previous steps
  | completion ∷ _ ↦ final_text (or_empty completion.text) steps
]

abbrev Continues : String → (String → Type 0) → List CompletionOutput → Type 0
Continues previous later [] = later previous
Continues previous later (completion ∷ _) =
    (starts_with (or_empty completion.text) previous ≡ true) × later (or_empty completion.text)

-- Each text goes on from the one before it.
abbrev pub Growing : String → List BackendStep → Type 0
Growing previous [] = previous ≡ previous
Growing previous (breaks at exc ∷ steps) = previous ≡ previous
Growing previous (gives at output ∷ steps) =
    Continues previous (λ text. Growing text steps) output.outputs

-- The contents of the chunks, in order.
abbrev pub contents : List ChunkStep → List String
contents [] = []
contents (gave at chunk ∷ steps) = chunk.content ∷ contents steps
contents (failed at exc ∷ steps) = contents steps

pub concat-append :
    (a b : List ChunkStep)
    → concat (contents (a ++ b)) ≡ text_append (concat (contents a)) (concat (contents b))
concat-append [] b = sym (nil-append _)
concat-append (gave at chunk ∷ a) b =
    ap (text_append chunk.content) (concat-append a b) ∙ sym (append_assoc _ _ _)
concat-append (failed at exc ∷ a) b = concat-append a b

append-delta :
    (previous text : String)
    → starts_with text previous ≡ true
    → text_append previous (delta previous text) ≡ text
unfolding delta
append-delta previous text h =
    let p = (starts_with_iff text previous).0 h in
    rw h (
      subst (λ t. text_append previous (slice t (len previous) (len t)) ≡ t) p.1
        (ap (text_append previous) (
          ap (slice (text_append previous p.0) (len previous)) (len-append previous p.0)
          ∙ slice-append_right previous p.0)))

concat-content : (at : ℕ) (s : String) → concat (contents (content_chunk at s)) ≡ s
unfolding content_chunk
concat-content at s = elim (Bool-cases (str_eq s "")) [
  | inl e ↦ rw e (sym ((eq_iff s "").0 e))
  | inr e ↦ rw e (append-nil s)
]

concat-terminal :
    (at : ℕ) (output : RequestOutput) (completion : CompletionOutput)
    → concat (contents (terminal_chunk at output completion)) ≡ ""
unfolding terminal_chunk
concat-terminal at output completion = elim (Bool-cases output.finished) [
  | inl e ↦ rw e (nil-append "")
  | inr e ↦ rw e refl
]

pub concat-stream_chunks :
    (previous : String) (steps : List BackendStep)
    → Growing previous steps
    → text_append previous (concat (contents (stream_chunks previous steps)))
      ≡ final_text previous steps
unfolding stream_chunks
concat-stream_chunks previous [] g = append-nil previous
concat-stream_chunks previous (breaks at exc ∷ steps) g = append-nil previous
concat-stream_chunks previous (gives at output ∷ steps) g =
    on_outputs (λ p h. concat-stream_chunks p steps h) output.outputs g
  where
    on_outputs :
        ((p : String)
          → Growing p steps
          → text_append p (concat (contents (stream_chunks p steps))) ≡ final_text p steps)
        → (cs : List CompletionOutput) → Continues previous (λ text. Growing text steps) cs
        → text_append previous (
            concat (
              contents (elim cs [
                | [] ↦ stream_chunks previous steps
                | completion ∷ _ ↦
                    content_chunk at (delta previous (or_empty completion.text))
                    ++ (terminal_chunk at output completion
                        ++ stream_chunks (or_empty completion.text) steps)
              ])))
          ≡ (elim cs [
            | [] ↦ final_text previous steps
            | completion ∷ _ ↦ final_text (or_empty completion.text) steps
          ])
    on_outputs rest_of [] h = rest_of previous h
    on_outputs rest_of (completion ∷ _) h =
        let text = or_empty completion.text in
        let rest = stream_chunks text steps in
        ap (text_append previous) (
          concat-append (content_chunk at (delta previous text))
            (terminal_chunk at output completion ++ rest)
          ∙ ap₂ text_append (concat-content at (delta previous text)) (
              concat-append (terminal_chunk at output completion) rest
              ∙ ap (λ s. text_append s (concat (contents rest)))
                  (concat-terminal at output completion)
              ∙ nil-append _))
        ∙ sym (append_assoc _ _ _)
        ∙ ap (λ s. text_append s (concat (contents rest))) (append-delta previous text h.0)
        ∙ rest_of text h.1

-- When each text that vLLM gives goes on from the one before, the contents of the chunks of the
-- stream, joined together, are the last text that it gave, however the stream ends.
pub stream-rejoins :
    (steps : List BackendStep)
    → Growing "" steps
    → concat (contents (stream_chunks "" steps)) ≡ final_text "" steps
stream-rejoins steps g = sym (nil-append _) ∙ concat-stream_chunks "" steps g
