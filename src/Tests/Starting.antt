-- ===== src/Tests/Starting.antt =====
-- A server process that loads one model, on a GPU of 8 GiB of which 7 are free.
use inference_x.Prelude.{[], ◌∷◌}
use inference_x.Prelude.Dict
use inference_x.Registry
use inference_x.Engine.Load.Start.{VllmEngine}
use inference_x.Pool
use inference_x.Pool.{EnginePool}
use inference_x.Tests.Serving.{ready}

abbrev serving : EnginePool VllmEngine
serving = record { engines = ("small", ready) ∷ [] }
