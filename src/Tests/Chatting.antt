-- ===== src/Tests/Chatting.antt =====
-- Completions and streams of a request for 300 tokens.
use inference_x.Prelude.{
  ℕ, ◌≡◌, ◌≢◌, refl, subst, String, true, none, some, List, [], ◌∷◌, ◌++◌, map, arith, str_eq,
  eq_iff,
}
use inference_x.Prelude.Dict
use inference_x.Schemas.{
  ChatCompletionRequest, ChatCompletionUsage, ChatCompletionResponse, stop, interactive,
}
use inference_x.Admission.{
  Controller, initial, effective_max_num_seqs, get_semaphore, context_ceiling, prompt_tokens,
}
use inference_x.Admission.Counter
use inference_x.Admission.Semaphore
use inference_x.Admission.Admit.Books.{Balanced, bump}
use inference_x.Admission.Admit
use inference_x.Admission.Admit.{admitted}
use inference_x.Admission.Admit.Balance.{After, start-After}
use inference_x.Admission.Gates.{gates, context_gate, kv_gate, requested_output, request_ceiling}
use inference_x.Registry
use inference_x.Prelude.Int.{pos}
use inference_x.Admission.System.Books.{boot-Inv}
use inference_x.Chat.{effective_request}
use inference_x.Chat.Complete.{Generation, responds, complete, Answers, complete-releases}
use inference_x.Chat.Stream.{
  EngineStep, yields, stalls, fails, trace, closed, prologue, prologue_event, content, terminal,
  timeout_error, done,
}
use inference_x.Chat.Stream.Release.{Settled, trace-Settled}
use inference_x.Chat.Stream.Protocol.{
  emitted, texts, last_chunk, echo, usage_if_asked, stream_protocol, stream_interrupted,
}
use inference_x.Tests.{config, engine, modest, as_asked}

abbrev spent : ChatCompletionUsage
spent = record { prompt_tokens = 100; completion_tokens = 2; total_tokens = 102 }

abbrev answer : ChatCompletionResponse
answer = record {
  model = "small";
  content = "hi";
  finish_reason = stop;
  usage = spent;
  timing = none;
  resolved = none;
  warnings = [];
}

abbrev hi : String
hi = "hi"

abbrev nothing : String
nothing = ""

hi-nonempty : hi ≢ nothing
hi-nonempty e =
    let h : str_eq hi nothing ≡ true = (eq_iff hi nothing).1 e in absurd (ground (arith, h))

abbrev steps : List EngineStep
steps = texts ("hi" ∷ []) (yields (last_chunk stop (some spent) none) ∷ [])

-- The client goes away after the first content event.
trace-Settled_example : Settled closed (trace modest as_asked steps (some 1) closed)
trace-Settled_example = trace-Settled modest as_asked steps (some 1) closed

stream_protocol_example :
    emitted (trace modest as_asked steps none closed)
    ≡ prologue (echo modest as_asked) as_asked.warnings
      ∷ (map content ("hi" ∷ [])
          ++ (terminal stop
              ∷ (usage_if_asked modest.stream_options (some spent) none ++ done ∷ [])))
stream_protocol_example =
    stream_protocol modest as_asked ("hi" ∷ []) stop (some spent) none (hi-nonempty, tt)

stream_interrupted_example :
    (emitted (trace modest as_asked (texts ("hi" ∷ []) (stalls ∷ [])) none closed)
      ≡ prologue_event modest as_asked ∷ (map content ("hi" ∷ []) ++ (timeout_error ∷ done ∷ [])))
    × (emitted (trace modest as_asked (texts ("hi" ∷ []) (fails ∷ [])) none closed)
        ≡ prologue_event modest as_asked ∷ map content ("hi" ∷ []))
stream_interrupted_example =
    stream_interrupted modest as_asked ("hi" ∷ []) [] closed (hi-nonempty, tt)

abbrev generates : ChatCompletionRequest → Generation ℕ
generates r = responds answer

abbrev holding : Controller
holding = record initial {
  tracker = Counter.add Counter.empty "small" (pos 400);
  semaphores = ("small", record { bound = 1; value = 0; queue = [] }) ∷ [];
}

abbrev none_of : String → ℕ
none_of m = 0

started : Admit.start config initial 0 "small" modest engine ≡ admitted as_asked holding
unfolding Admit.start Admit.gate_1 Admit.after_gate_1 effective_max_num_seqs get_semaphore gates
    context_gate kv_gate requested_output request_ceiling context_ceiling prompt_tokens Counter.add
    Counter.current Counter.empty Semaphore.create Semaphore.acquire Semaphore.locked Registry.get
    Registry.contains Dict.get Dict.has Dict.put
started = refl

holding-Balanced :
    Balanced config holding (bump "small" 1 none_of) (bump "small" 400 none_of) none_of
holding-Balanced = subst (After config none_of none_of none_of "small" interactive) started (
    start-After config "small" modest engine none_of none_of none_of initial 0
      (boot-Inv config).books)

complete-releases_example :
    ((ctl' : Controller) × ((complete holding "small" modest as_asked generates).0 ≡ some ctl')
      × Balanced config ctl' none_of none_of none_of)
    × Answers modest as_asked
        (generates (effective_request modest as_asked))
        (complete holding "small" modest as_asked generates).1
complete-releases_example =
    complete-releases config holding "small" modest as_asked generates none_of none_of none_of
      holding-Balanced
