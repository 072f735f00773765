-- ===== src/Playground/Tokens/Received.antt =====
-- The tokens of the client are the texts of the server's engine.
use inference_x.Prelude.{◌≡◌, List, ◌∷◌}
use inference_x.Chat.Stream.{SseEvent}
use inference_x.Engine.Chunks.InTime.{InTime}
use inference_x.Playground.Tokens.{wire, stream_chat_tokens}

-- An event that carries no token, and does not end the stream.
abbrev Silent : SseEvent → Type 0
Silent e =
    (rest : List SseEvent) → stream_chat_tokens (wire (e ∷ rest)) ≡ stream_chat_tokens (wire rest)
