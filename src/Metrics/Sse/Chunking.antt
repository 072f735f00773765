-- ===== src/Metrics/Sse/Chunking.antt =====
-- What is recorded of a stream depends on its bytes, not on how they are cut into chunks.
use mathlib.Core.List.{append-nil, append_assoc}
use inference_x.Prelude.{
  ℕ, zero, suc, ◌≤◌, ◌≡◌, refl, sym, ap, subst, ◌∙◌, inl, inr, Option, none, some, List, [], ◌∷◌,
  ◌++◌, map, length, length-append, arith, Option-cases,
}
use inference_x.Metrics.Sse.Split.{split_first-append, split_first-shorter, split_first-empty}
use inference_x.Metrics.Sse.{
  Payload, Chunk, Ending, Reading, StreamRecord, split_first, begin, on_line, drain, on_chunk,
  on_chunks, finish, wrap_and_record_sse,
}

abbrev pub bytes : List Chunk → List ℕ
bytes [] = []
bytes (c ∷ cs) = c.raw ++ bytes cs

abbrev at_zero : Option ℕ → Option ℕ
at_zero none = none
at_zero (some t) = some 0

-- The time at which the first content came, left out.
abbrev erase : Reading → Reading
erase st = record st { ttft = at_zero (st.ttft) }

abbrev pub untimed : StreamRecord → StreamRecord
untimed r = record r { ttft = at_zero (r.ttft) }

abbrev holding : Reading → List ℕ → Reading
holding st b = record st { buffer = b }

module _ (payload_of : List ℕ → Option Payload) where
  on_line-holding :
      (st : Reading) (b l : List ℕ)
      → on_line payload_of 0 (holding st b) l ≡ holding (on_line payload_of 0 st l) b
  unfolding on_line
  on_line-holding st b l = ground arith

  erase-on_line :
      (now : ℕ) (st : Reading) (l : List ℕ)
      → erase (on_line payload_of now st l) ≡ on_line payload_of 0 (erase st) l
  unfolding on_line
  erase-on_line now st l = ground arith

  drain-none :
      (n now : ℕ) (st : Reading) → split_first (st.buffer) ≡ none → drain payload_of n now st ≡ st
  unfolding drain
  drain-none zero now st e = refl
  drain-none (suc n) now st e = rw (drain, e) refl

  drain-some :
      (n now : ℕ) (st : Reading) (l r : List ℕ)
      → split_first (st.buffer) ≡ some (l, r)
      → drain payload_of (suc n) now st
        ≡ drain payload_of n now (on_line payload_of now (holding st r) l)
  unfolding drain
  drain-some n now st l r e = rw (drain, e) refl

  erase-drain :
      (n now : ℕ) (st : Reading)
      → erase (drain payload_of n now st) ≡ drain payload_of n 0 (erase st)
  unfolding drain
  erase-drain zero now st = refl
  erase-drain (suc n) now st = elim (Option-cases (split_first (st.buffer))) [
    | inl e ↦ ap erase (drain-none (suc n) now st e) ∙ sym (drain-none (suc n) 0 (erase st) e)
    | inr ((l, r), e) ↦
        ap erase (drain-some n now st l r e)
        ∙ erase-drain n now (on_line payload_of now (holding st r) l)
        ∙ ap (drain payload_of n 0) (erase-on_line now (holding st r) l)
        ∙ sym (drain-some n 0 (erase st) l r e)
  ]

  buffer-on_line :
      (now : ℕ) (st : Reading) (l : List ℕ) → (on_line payload_of now st l).buffer ≡ st.buffer
  unfolding on_line
  buffer-on_line now st l = ground arith

  -- Fuel that the length of the buffer bounds is enough.
  drain_fuel :
      (n m : ℕ) (st : Reading)
      → length (st.buffer) ≤ n
      → length (st.buffer) ≤ m
      → drain payload_of n 0 st ≡ drain payload_of m 0 st
  drain_fuel zero m st h h' =
      drain-none zero 0 st (split_first-empty (st.buffer) h)
      ∙ sym (drain-none m 0 st (split_first-empty (st.buffer) h))
  drain_fuel (suc n) zero st h h' =
      drain-none (suc n) 0 st (split_first-empty (st.buffer) h')
      ∙ sym (drain-none zero 0 st (split_first-empty (st.buffer) h'))
  drain_fuel (suc n) (suc m) st h h' = elim (Option-cases (split_first (st.buffer))) [
    | inl e ↦ drain-none (suc n) 0 st e ∙ sym (drain-none (suc m) 0 st e)
    | inr ((l, r), e) ↦
        drain-some n 0 st l r e
        ∙ ap (drain payload_of n 0) (on_line-holding st r l)
        ∙ drain_fuel n m (holding (on_line payload_of 0 st l) r)
            (split_first-shorter n (st.buffer) l r h e) (split_first-shorter m (st.buffer) l r h' e)
        ∙ ap (drain payload_of m 0) (sym (on_line-holding st r l))
        ∙ sym (drain-some m 0 st l r e)
  ]

  -- What is left over, and `ys` after it.
  abbrev onward : ℕ → Reading → List ℕ → Reading
  onward k st ys = drain payload_of k 0 (holding st (st.buffer ++ ys))

  onward-none :
      (n m k : ℕ) (st : Reading) (ys : List ℕ)
      → split_first (st.buffer) ≡ none
      → length (st.buffer ++ ys) ≤ m
      → length ((drain payload_of n 0 st).buffer ++ ys) ≤ k
      → onward m st ys ≡ onward k (drain payload_of n 0 st) ys
  onward-none n m k st ys e h' h'' =
      let q = drain-none n 0 st e in
      drain_fuel m k (holding st (st.buffer ++ ys)) h'
        (subst (λ d. length (d.buffer ++ ys) ≤ k) q h'')
      ∙ ap (λ d. onward k d ys) (sym q)

  -- Draining, and then again with more bytes, is draining all of them at once.
  drain-append :
      (n m k : ℕ) (st : Reading) (ys : List ℕ)
      → length (st.buffer) ≤ n
      → length (st.buffer ++ ys) ≤ m
      → length ((drain payload_of n 0 st).buffer ++ ys) ≤ k
      → onward m st ys ≡ onward k (drain payload_of n 0 st) ys
  drain-append zero m k st ys h h' h'' =
      onward-none zero m k st ys (split_first-empty (st.buffer) h) h' h''
  drain-append (suc n) zero k st ys h h' h'' =
      onward-none (suc n) zero k st ys
        (split_first-empty (st.buffer) (omega (arith, length-append (st.buffer) ys))) h' h''
  drain-append (suc n) (suc m) k st ys h h' h'' = elim (Option-cases (split_first (st.buffer))) [
    | inl e ↦ onward-none (suc n) (suc m) k st ys e h' h''
    | inr ((l, r), e) ↦
        let o = on_line payload_of 0 st l in
        let more = split_first-append (st.buffer) ys l r e in
        let q : drain payload_of (suc n) 0 st ≡ drain payload_of n 0 (holding o r) =
          drain-some n 0 st l r e ∙ ap (drain payload_of n 0) (on_line-holding st r l) in
        drain-some m 0 (holding st (st.buffer ++ ys)) l (r ++ ys) more
        ∙ ap (drain payload_of m 0) (on_line-holding st (r ++ ys) l)
        ∙ drain-append n m k (holding o r) ys (split_first-shorter n (st.buffer) l r h e)
            (split_first-shorter m (st.buffer ++ ys) l (r ++ ys) h' more)
            (subst (λ d. length (d.buffer ++ ys) ≤ k) q h'')
        ∙ ap (λ d. onward k d ys) (sym q)
  ]

  abbrev timeless : Chunk → Chunk
  timeless c = record c { at = 0 }

  erase-on_chunks :
      (st : Reading) (cs : List Chunk)
      → erase (on_chunks payload_of st cs) ≡ on_chunks payload_of (erase st) (map timeless cs)
  unfolding on_chunks
  erase-on_chunks st [] = refl
  erase-on_chunks st (c ∷ cs) =
      erase-on_chunks (on_chunk payload_of st c) cs
      ∙ ap (λ d. on_chunks payload_of d (map timeless cs))
          (erase-drain (length (st.buffer ++ c.raw)) (c.at) (holding st (st.buffer ++ c.raw)))

  -- From a drained reading, the chunks give what their bytes give at once.
  on_chunks-bytes :
      (n k : ℕ) (st : Reading) (cs : List Chunk)
      → length (st.buffer) ≤ n
      → length (st.buffer ++ bytes cs) ≤ k
      → on_chunks payload_of (drain payload_of n 0 st) (map timeless cs) ≡ onward k st (bytes cs)
  unfolding on_chunks
  on_chunks-bytes n k st [] h h' =
      drain_fuel n k st h (subst (λ b. length b ≤ k) (append-nil (st.buffer)) h')
      ∙ ap (λ b. drain payload_of k 0 (holding st b)) (sym (append-nil (st.buffer)))
  on_chunks-bytes n k st (c ∷ cs) h h' =
      let d = drain payload_of n 0 st in
      let longer = d.buffer ++ c.raw in
      let rest = longer ++ bytes cs in
      on_chunks-bytes (length longer) (length rest) (holding d longer) cs (omega arith)
        (omega arith)
      ∙ ap (λ b. drain payload_of (length b) 0 (holding d b))
          (append_assoc (d.buffer) (c.raw) (bytes cs))
      ∙ sym (
          drain-append n k (length (d.buffer ++ (c.raw ++ bytes cs))) st (c.raw ++ bytes cs) h h'
            (omega arith))

  at_once :
      (cs : List Chunk)
      → erase (on_chunks payload_of begin cs) ≡ onward (length (bytes cs)) begin (bytes cs)
  unfolding drain
  at_once cs =
      erase-on_chunks begin cs
      ∙ on_chunks-bytes 0 (length (bytes cs)) begin cs (omega arith) (omega arith)

  chunking :
      (cs cs' : List Chunk)
      → bytes cs ≡ bytes cs'
      → erase (on_chunks payload_of begin cs) ≡ erase (on_chunks payload_of begin cs')
  chunking cs cs' e = at_once cs ∙ ap (λ b. onward (length b) begin b) e ∙ sym (at_once cs')

-- Two runs of the wrapper on the same bytes, cut into chunks in any two ways and at any times, that end
-- alike after the same time, make the same record but for the value of the time to the first content;
-- whether there is one is the same too.
pub wrap_and_record_sse-chunking :
    (payload_of : List ℕ → Option Payload) (cs cs' : List Chunk) (ending : Ending) (elapsed : ℕ)
    → bytes cs ≡ bytes cs'
    → untimed ((wrap_and_record_sse payload_of cs ending elapsed).1)
      ≡ untimed ((wrap_and_record_sse payload_of cs' ending elapsed).1)
unfolding wrap_and_record_sse
wrap_and_record_sse-chunking payload_of cs cs' ending elapsed e =
    ap (finish ending elapsed) (chunking payload_of cs cs' e)
