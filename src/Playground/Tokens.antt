-- ===== src/Playground/Tokens.antt =====
-- playground/app.py and playground/streaming.py: what a client reads off the event stream, and
-- services/chat_service.py, `_event`: what an event says there. A line is taken after `strip` and
-- `json.loads`: the payload that a `data:` line carries, as far as the client looks into it.
pub mod Received
use inference_x.Prelude.{
  ℕ, ◌==◌, String, Bool, true, false, not, Option, none, some, List, [], ◌∷◌, ◌++◌, str_eq,
  if◌then◌else◌,
}
use inference_x.Schemas.{ChatMessage, Role, Fraction, ChatCompletionRequest, interactive}
use inference_x.Chat.Stream.{
  SseEvent, prologue, content, terminal, usage_event, timeout_error, done,
}

-- `payload["choices"]`, when it is there: for each choice the text of its delta, if any.
pub record WirePayload : Type 0 where
  pub choices : Option (List (Option String))

pub data WireLine : Type 0 where
  blank not_data end_marker not_json : WireLine
  data_line : WirePayload → WireLine

-- An event and the blank line after it.
unfoldable pub wire_lines : SseEvent → List WireLine
wire_lines (prologue r ws) = data_line (record { choices = some [] }) ∷ blank ∷ []
wire_lines (content s) = data_line (record { choices = some (some s ∷ []) }) ∷ blank ∷ []
wire_lines (terminal f) = data_line (record { choices = some (none ∷ []) }) ∷ blank ∷ []
wire_lines (usage_event u t) = data_line (record { choices = some [] }) ∷ blank ∷ []
wire_lines timeout_error = data_line (record { choices = none }) ∷ blank ∷ []
wire_lines done = end_marker ∷ blank ∷ []

abbrev pub wire : List SseEvent → List WireLine
wire [] = []
wire (e ∷ es) = wire_lines e ++ wire es

abbrev first_delta : Option (List (Option String)) → Option String
first_delta none = none
first_delta (some []) = none
first_delta (some (delta ∷ _)) = delta

unfoldable pub parse_sse_line : WireLine → Option String
parse_sse_line blank = none
parse_sse_line not_data = none
parse_sse_line end_marker = none
parse_sse_line not_json = none
parse_sse_line (data_line payload) = first_delta payload.choices

abbrev kept : Option String → List String → List String
kept none tokens = tokens
kept (some token) tokens = token ∷ tokens

unfoldable pub parse_sse_stream : List WireLine → List String
unfolding parse_sse_line
parse_sse_stream [] = []
parse_sse_stream (line ∷ lines) = kept (parse_sse_line line) (parse_sse_stream lines)

-- `if token: yield token`
unfoldable pub yielded : Option String → List String → List String
yielded none tokens = tokens
yielded (some token) tokens = if str_eq token "" then tokens else token ∷ tokens

-- The loop of `stream_chat_tokens`, which returns at the end marker.
unfoldable pub stream_chat_tokens : List WireLine → List String
unfolding parse_sse_line yielded
stream_chat_tokens [] = []
stream_chat_tokens (end_marker ∷ lines) = []
stream_chat_tokens (line ∷ lines) = yielded (parse_sse_line line) (stream_chat_tokens lines)

-- The body of a request, with the defaults of the schema for the keys that it leaves out.
unfoldable pub build_chat_payload : List ChatMessage → String → Fraction → ℕ → ChatCompletionRequest
build_chat_payload messages model temperature max_tokens = record {
  model = model;
  messages = messages;
  temperature = some temperature;
  max_tokens = some max_tokens;
  top_p = some (record { num = 95; den = 100 });
  stream = true;
  max_context_tokens = none;
  max_output_tokens = none;
  priority = interactive;
  stream_options = none;
  seed = none;
  strict = false;
}

unfoldable pub append_turn : List ChatMessage → Role → String → List ChatMessage
append_turn messages role text = messages ++ (record { role = role; content = text } ∷ [])

-- `GET /health` answered with a status and, if it parses, the value of "status" in its body.
unfoldable pub fetch_health : Option (ℕ × Option String) → Bool
fetch_health none = false
fetch_health (some (status, none)) = false
fetch_health (some (status, some health)) = if status == 200 then str_eq health "healthy" else false
