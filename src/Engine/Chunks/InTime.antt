-- ===== src/Engine/Chunks/InTime.antt =====
-- Streams whose chunks come in time for the chat service.
use inference_x.Prelude.{
  ℕ, ◌+◌, ◌≤◌, ◌<◌, max, ◌≡◌, ◌⊎◌, refl, ap, inl, inr, List, [], ◌∷◌, false, arith,
}
use inference_x.Chat.Stream.{yields, fails}
use inference_x.Engine.Chunks.{ChunkStep, gave, failed, seen, times_out, awaited}

-- There is no timeout, or less than it passes from `last` to a step.
abbrev pub Soon : ℕ → ℕ → ℕ → Type 0
Soon timeout last at = (timeout ≡ 0) ⊎ (at < last + timeout)

-- Each chunk comes soon after the one before, and the first one soon after `last`.
abbrev pub InTime : ℕ → ℕ → List ChunkStep → Type 0
InTime timeout last [] = Unit
InTime timeout last (gave at chunk ∷ steps) = Soon timeout last at × InTime timeout at steps
InTime timeout last (failed at exc ∷ steps) = Soon timeout last at × InTime timeout at steps

Soon-times_out :
    (timeout last now at : ℕ) → last ≤ now → Soon timeout last at → times_out timeout now at ≡ false
Soon-times_out timeout last now at l (inl z) = rw z refl
Soon-times_out timeout last now at l (inr s) = ground (arith, l, s)

-- A consumer with a timeout, however long it takes between two chunks, sees what one without it does.
pub awaited-seen :
    (timeout : ℕ) (delay : ℕ → ℕ) (now last : ℕ) (steps : List ChunkStep)
    → last ≤ now
    → InTime timeout last steps
    → awaited timeout delay now steps ≡ seen steps
unfolding awaited
awaited-seen timeout delay now last [] l h = refl
awaited-seen timeout delay now last (gave at chunk ∷ steps) l h =
    let next = max now at + delay (max now at) in
    rw (Soon-times_out timeout last now at l h.0)
      (ap (◌∷◌ (yields chunk)) (awaited-seen timeout delay next at steps (omega arith) h.1))
awaited-seen timeout delay now last (failed at exc ∷ steps) l h =
    let next = max now at + delay (max now at) in
    rw (Soon-times_out timeout last now at l h.0)
      (ap (◌∷◌ fails) (awaited-seen timeout delay next at steps (omega arith) h.1))
