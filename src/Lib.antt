-- ===== src/Lib.antt =====
-- A verification library of InferenceX, an OpenAI-compatible server for local language models.
--
-- The program. A chat request arrives over HTTP, is routed to a loaded model, passes an admission
-- controller, runs on the model's engine, and is answered at once or as a stream of server-sent
-- events; a middleware records every request, and a service reports the records. At load time a
-- VRAM tier is resolved for the GPU, variants of a model are chosen by what fits, and engine
-- settings are limited by the tier. Paths below stand under src/inference_x,
-- those of the playground under playground.
--
-- The parts, and the code that each is about:
--   Prelude     shared notation: Boolean tests, lists, integers, dicts, Python's stable sort
--   Schemas     schemas/chat.py, schemas/model.py
--   Registry    services/model_service.py: ModelRegistry
--   Tiers       utils/vram_tiers.py: load_tiers, resolve_tier; core/settings.py: get_vram_tier
--   Routing     routing/policies.py, routing/task_router.py: TaskRouter
--   Pool        engines/pool.py: EnginePool
--   Admission   routing/admission.py: AdmissionController. Admission.Counter is _PerModelCounter;
--               Admission.Gates are gates 2 and 3 and the commit of admit(); Admission.Admit is
--               admit() between its suspensions (start, resume, interrupt) and release();
--               Admission.Semaphore is asyncio.BoundedSemaphore, by its documented behaviour in
--               CPython 3.12 (a release hands the permit to the first waiter, which wakes later);
--               Admission.System is the controller with every request in flight
--   Chat        services/chat_service.py: _resolve_engine and _resolved; Chat.Complete is complete(),
--               Chat.Stream is stream_response() as the sequence of its actions
--   Metrics     observability/storage.py, recorder.py and middleware.py, services/metrics_service.py
--   Sizing      utils/vllm_pool_config.py: estimate_weight_gib; Sizing.Knobs is apply_tier_knobs, and
--               Sizing.Utilization the footprint, the share of the GPU and scale_model_config
--   Engine      engines/vllm_engine.py: VLLMEngine. Engine.Load is its constructor with the checks
--               before it, Engine.InitError the meaning of a failed start, Engine.Prompt the prompt,
--               its token count and the sampling parameters, Engine.Chunks the stream,
--               Engine.Generate the collected answer, Engine.Output what both read off vLLM's output
--   Variants    routing/variant_selector.py: select_variant
--   Benchmarks  benchmarks/storage.py: ResultStore's selection of results; Benchmarks.Advisor is
--               advisor.py: ModelAdvisor.rank
--   Startup     api/deps.py: the engine pool, the router and the admission controller; Startup.Load
--               loads the one engine of the pool, Startup.Boot is about all of them together
--   Errors      api/errors.py, api/main.py: the HTTP answer to an exception of admit()
--   Playground  the terminal client beside src, in playground: Playground.Polling and
--               Playground.Servers are streaming.py and server_control.py, Playground.Tokens the
--               reader of the event stream in app.py, Playground.UrlGuard url_validation.py, and
--               Playground.Compare the comparison of two models in client.py
--   Tests       the theorems at concrete data
--
-- State and interleaving. The server is one asyncio process: between two awaits nothing else runs.
-- So admit() is cut at its one await, and Admission.System.step takes an event (an arrival, a timeout
-- or cancellation that reaches a waiting request, its resumption, the release of an admitted one) from
-- one state to the next. A theorem on `run c boot es` holds in every state that any sequence of events
-- `es` reaches. An event that cannot happen in a state (a ticket that no request has) changes nothing.
--
-- Numbers. A float that the code compares is an exact fraction or is scaled to a natural number (the
-- KV safety margin, hundredths of a GiB and of a byte, thousandths of a millisecond); the rounding that
-- the code asks for is modelled, that of float arithmetic is not. Fuel stands in
-- Metrics.Sse.drain, for the length of the buffer, which is enough, since each round takes at least two
-- bytes of it, and in the waiting loops of the playground, for the timeout, which is enough, since each
-- round lets time pass.
--
-- Parameters. Parsed YAML and JSON, AutoConfig, the regular expression for a size in a model's name,
-- what an engine yields and whether it is healthy, whether its generator closes, the times of its chunks
-- and of the service between them, what vLLM, its tokenizer and the HuggingFace client answer, and
-- which steps of the playground's servers raise are arguments of the definitions.
--
-- Not modelled: FastAPI's wiring, exporters, hardware probing, the benchmark runner, the scripts, and
-- the screens, the formatting and the log feed of the playground, which are I/O or adapters of other
-- libraries; pydantic's range checks, the texts of messages, and the JSON text
-- of an event.
pub mod Prelude
pub mod Schemas
pub mod Registry
pub mod Tiers
pub mod Routing
pub mod Pool
pub mod Admission
pub mod Chat
pub mod Metrics
pub mod Sizing
pub mod Variants
pub mod Benchmarks
pub mod Engine
pub mod Playground
pub mod Errors
pub mod Startup
pub mod Tests
