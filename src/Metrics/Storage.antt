-- ===== src/Metrics/Storage.antt =====
-- observability/storage.py and recorder.py: the capped buffer of records, oldest first, and the one
-- place that writes it. Each method runs under the buffer's lock, so it is one operation here. The
-- request id is fresh (a random UUID) and is left out.
pub mod Laws
use inference_x.Prelude.{
  ℕ, zero, suc, ◌-◌, String, Bool, true, false, Option, none, some, List, [], ◌∷◌, ◌++◌, length,
  drop, leb, ltb, ◌==◌, if◌then◌else◌,
}

pub record RequestRecord : Type 0 where
  pub path : String
  pub method : String
  pub status_code : ℕ
  pub latency : ℕ
  pub model : Option String
  pub prompt_tokens : Option ℕ
  pub completion_tokens : Option ℕ
  pub total_tokens : Option ℕ
  pub error : Bool
  pub ttft : Option ℕ
  pub tokens_per_sec : Option ℕ

pub record InMemoryStorage : Type 0 where
  pub max_records : ℕ
  pub buf : List RequestRecord

unfoldable pub create : ℕ → InMemoryStorage
create n = record { max_records = n; buf = [] }

-- `deque(maxlen=...).append`: the oldest record makes room.
unfoldable pub append : InMemoryStorage → RequestRecord → InMemoryStorage
append s r =
    let longer = s.buf ++ r ∷ [] in
    record s { buf = if ltb s.max_records (length longer) then drop 1 longer else longer }

unfoldable pub all : InMemoryStorage → List RequestRecord
all s = s.buf

-- `items[-n:] if n <= len(items) else items`; the slice from -0 is the whole list.
unfoldable pub recent : InMemoryStorage → ℕ → List RequestRecord
recent s n =
    if leb n (length s.buf)
    then (if n == 0 then s.buf else drop (length s.buf - n) s.buf)
    else s.buf

unfoldable pub clear : InMemoryStorage → InMemoryStorage
clear s = record s { buf = [] }

-- `MetricsRecorder.record`: storage and export, each in a `try` of its own. `stored` and `exported`
-- say whether the step succeeds; a failure is logged and swallowed. The result is the record, the
-- storage, and what the exporter has written.
unfoldable pub record_request :
    Bool
    → Bool
    → InMemoryStorage
    → List RequestRecord
    → RequestRecord
    → RequestRecord × InMemoryStorage × List RequestRecord
unfolding append
record_request stored exported storage written r = (
  r,
  (if stored then append storage r else storage),
  (if exported then written ++ r ∷ [] else written),
)

abbrev pub append_all : InMemoryStorage → List RequestRecord → InMemoryStorage
append_all s [] = s
append_all s (r ∷ rs) = append_all (append s r) rs
