-- ===== src/Metrics/Sse.antt =====
-- observability/middleware.py, `_wrap_and_record_sse`: the bytes of a streamed response pass through
-- while complete events are read for the first content and for the usage. `json.loads` on an event's
-- data is not code of the repository: `payload_of` is what decoding, stripping and parsing a line give,
-- none where the line has no `data:` prefix, is the end marker or does not parse. The clock is read once at
-- most in a stream, so a chunk carries the time it would give then.
mod Split
pub mod Chunking
use inference_x.Prelude.{
  ℕ, zero, suc, ◌+◌, ◌*◌, String, Bool, true, false, not, ◌&&◌, ◌||◌, Option, none, some, List, [],
  ◌∷◌, ◌++◌, length, ltb, ◌==◌, map, is_some, str_eq, if◌then◌else◌,
}
use inference_x.Schemas.{Fraction}

-- What the code reads of an event: `choices[i]["delta"]["content"]`, and `usage` when it is an object.
pub record Payload : Type 0 where
  pub choices : List (Option String)
  pub usage : Option (Option ℕ × Option ℕ)

pub record Chunk : Type 0 where
  pub raw : List ℕ
  pub at : ℕ

pub data Ending : Type 0 where
  exhausted : Ending
  raised : Ending
  closed : Ending

pub record Reading : Type 0 where
  pub ttft : Option ℕ
  pub prompt_tokens : Option ℕ
  pub completion_tokens : Option ℕ
  pub buffer : List ℕ

-- The arguments of the one `recorder.record` call.
pub record StreamRecord : Type 0 where
  pub status_code : ℕ
  pub latency : ℕ
  pub prompt_tokens : Option ℕ
  pub completion_tokens : Option ℕ
  pub total_tokens : Option ℕ
  pub error : Bool
  pub ttft : Option ℕ
  pub tokens_per_sec : Option Fraction

abbrev pub is_newline : ℕ → Bool
is_newline b = b == 10

abbrev or_zero : Option ℕ → ℕ
or_zero none = 0
or_zero (some n) = n

abbrev usage_of : Option (Option ℕ × Option ℕ) → Option (ℕ × ℕ)
usage_of none = none
usage_of (some (prompt, completion)) = some (or_zero prompt, or_zero completion)

abbrev first_has_content : List (Option String) → Bool
first_has_content [] = false
first_has_content (none ∷ cs) = false
first_has_content (some content ∷ cs) = not (str_eq content "")

abbrev both : Option ℕ → Option ℕ → Option ℕ
both (some p) (some c) = some (p + c)
both _ _ = none

-- Tokens a second: the latency is in thousandths of a millisecond.
abbrev rate : Option ℕ → ℕ → Option Fraction
rate none elapsed = none
rate (some c) elapsed =
    if ltb 0 c && ltb 0 elapsed then some (record { num = c * 1000000; den = elapsed }) else none

-- A blank line found here, with `rest` after it, or what was found later with `a` before it.
abbrev pub cut : Bool → ℕ → List ℕ → Option (List ℕ × List ℕ) → Option (List ℕ × List ℕ)
cut true a rest later = some ([], rest)
cut false a rest none = none
cut false a rest (some (line, tail)) = some (a ∷ line, tail)

-- `buffer.split(b"\n\n", 1)`, or none when there is no blank line in it.
unfoldable pub split_first : List ℕ → Option (List ℕ × List ℕ)
split_first [] = none
split_first (a ∷ []) = none
split_first (a ∷ b ∷ rest) = cut (is_newline a && is_newline b) a rest (split_first (b ∷ rest))

abbrev pub begin : Reading
begin = record { ttft = none; prompt_tokens = none; completion_tokens = none; buffer = [] }

module _ (payload_of : List ℕ → Option Payload) where
  -- `_extract_sse_usage`
  unfoldable pub extract_sse_usage : List ℕ → Option (ℕ × ℕ)
  extract_sse_usage line = elim (payload_of line) [ none ↦ none | some p ↦ usage_of (p.usage) ]

  -- `_has_content_delta`
  unfoldable pub has_content_delta : List ℕ → Bool
  has_content_delta line = elim (payload_of line) [
    | none ↦ false
    | some p ↦ first_has_content (p.choices)
  ]

  -- One event, in the loop over complete events.
  unfoldable pub on_line : ℕ → Reading → List ℕ → Reading
  unfolding extract_sse_usage has_content_delta
  on_line now st line =
      let timed =
        if not (is_some (st.ttft)) && has_content_delta line
        then record st { ttft = some now }
        else st in
      elim (extract_sse_usage line) [
        | none ↦ timed
        | some (p, c) ↦ record timed { prompt_tokens = some p; completion_tokens = some c }
      ]

  -- `while b"\n\n" in buffer`, on fuel: a round takes two bytes or more out of the buffer.
  unfoldable pub drain : ℕ → ℕ → Reading → Reading
  unfolding split_first on_line
  drain zero now st = st
  drain (suc n) now st = elim (split_first (st.buffer)) [
    | none ↦ st
    | some (line, rest) ↦ drain n now (on_line now (record st { buffer = rest }) line)
  ]

  unfoldable pub on_chunk : Reading → Chunk → Reading
  unfolding drain
  on_chunk st c =
      let longer = record st { buffer = st.buffer ++ c.raw } in
      drain (length (longer.buffer)) (c.at) longer

  unfoldable pub on_chunks : Reading → List Chunk → Reading
  unfolding on_chunk
  on_chunks st [] = st
  on_chunks st (c ∷ cs) = on_chunks (on_chunk st c) cs

-- The `finally` block.
unfoldable pub finish : Ending → ℕ → Reading → StreamRecord
finish ending elapsed st = record {
  status_code = (elim ending [ raised ↦ 500 | _ ↦ 200 ]);
  latency = elapsed;
  prompt_tokens = st.prompt_tokens;
  completion_tokens = st.completion_tokens;
  total_tokens = both (st.prompt_tokens) (st.completion_tokens);
  error = (elim ending [ raised ↦ true | _ ↦ false ]);
  ttft = st.ttft;
  tokens_per_sec = rate (st.completion_tokens) elapsed;
}

-- The generator: the bytes handed on, chunk by chunk, and the record.
unfoldable pub wrap_and_record_sse :
    (List ℕ → Option Payload) → List Chunk → Ending → ℕ → List (List ℕ) × StreamRecord
unfolding on_chunks finish
wrap_and_record_sse payload_of cs ending elapsed =
    (map (λ c. c.raw) cs, finish ending elapsed (on_chunks payload_of begin cs))
