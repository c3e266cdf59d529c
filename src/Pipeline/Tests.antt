-- ===== src/Pipeline/Tests.antt =====
-- The pipeline on concrete inputs: frames are numbers, and a validator refuses the small ones.
use flare_core.Base.{
  ℕ, ◌≡◌, refl, [], ◌∷◌, List, none, some, Text, leb, if◌then◌else◌, Result, ok, err,
}
use flare_core.Base.Chars.{codes}
use flare_core.Connection.Info.{pre_negotiation_parser}
use flare_core.Pipeline.{
  logging, metrics, validation, application, MessageMiddleware, MessagePipeline, World, Application,
  refused, process_frame, pipeline_new, add_middleware, remove_middleware, sort_by_priority,
  add_processor,
}
use flare_core.Pipeline.Laws.{process_frame-refused}
use flare_core.Pipeline.Order.{Edit, adds, removes, adds_processor, edit, edit_all}

abbrev at_least : ℕ → ℕ → Result Text (Unit {0})
at_least least n = if leb least n then ok tt else err (codes "small")

abbrev noting : MessageMiddleware ℕ
noting = record { ptr = 1; kind = logging }

abbrev validating : MessageMiddleware ℕ
validating = record { ptr = 2; kind = validation (at_least 3) }

abbrev counting : MessageMiddleware ℕ
counting = record { ptr = 3; kind = application 7 }

abbrev measuring : MessageMiddleware ℕ
measuring = record { ptr = 4; kind = metrics }

abbrev echo : Application ℕ ℕ
echo = record {
  before = λ ptr ctx r. (r, ok none);
  after = λ ptr ctx response r. (r, ok none);
  process = λ ptr ctx r. (r, ok (some ctx.frame));
  wall_clock_ms = λ app. app;
}

abbrev edits : List (Edit ℕ)
edits =
    adds measuring
    ∷ adds noting
    ∷ adds counting
    ∷ removes measuring
    ∷ adds validating
    ∷ adds_processor 9
    ∷ []

process_frame-refused_example :
    let w : World ℕ ℕ = record {
      pipeline = edit_all (pipeline_new pre_negotiation_parser) edits;
      app = 5;
    } in
    process_frame echo 2 none w ≡ (w, err (refused (codes "small")))
unfolding edit pipeline_new add_middleware remove_middleware sort_by_priority add_processor
process_frame-refused_example =
    process_frame-refused echo pre_negotiation_parser edits 2 none 5 (codes "small") refl refl

abbrev two : MessagePipeline ℕ
two = record {
  middlewares = counting ∷ measuring ∷ [];
  processors = [];
  parser = pre_negotiation_parser;
}
