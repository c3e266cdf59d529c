-- ===== src/Pipeline.antt =====
-- The message pipeline: src/common/message/pipeline.rs, and the middlewares of
-- src/common/message/middleware.rs. A middleware is its allocation and its kind; what the
-- application's middlewares and processors do is an argument, which acts on the whole world, the
-- pipeline included. One message is handled at a time, and what is only logged is left out.
pub mod Order
pub mod Laws
mod Tests
use flare_core.Base.{
  ℕ, zero, suc, ◌+◌, ◌*◌, ◌/◌, ◌%◌, ◌^◌, Bool, true, false, not, List, [], ◌∷◌, ◌++◌, Option, none,
  some, Text, text_eq, leb, nat_beq, filter, if◌then◌else◌, Result, ok, err,
}
use flare_core.Base.Chars.{codes}
use flare_core.Base.Dict.{Dict, insert}
use flare_core.Connection.Info.{MessageParser}
use flare_core.Parser.{Bytes, Codecs, ParseError, parse, serialize}

pub data PipelineError : Type 0 where
  refused failed : Text → PipelineError
  deserialization_error encoding_error : ParseError → PipelineError

-- The validator is the application's; an application's middleware has its priority.
pub data MiddlewareKind (F : Type 0) : Type 0 where
  logging metrics : MiddlewareKind F
  validation : (F → Result Text (Unit {0})) → MiddlewareKind F
  application : ℕ → MiddlewareKind F

pub record MessageMiddleware (F : Type 0) : Type 0 where
  pub ptr : ℕ
  pub kind : MiddlewareKind F

abbrev pub priority_of : {F : Type 0} → MiddlewareKind F → ℕ
priority_of logging = 10
priority_of metrics = 20
priority_of (validation f) = 5
priority_of (application n) = n

abbrev pub priority : {F : Type 0} → MessageMiddleware F → ℕ
priority m = priority_of m.kind

-- A processor is its allocation.
pub record MessagePipeline (F : Type 0) : Type 0 where
  pub middlewares : List (MessageMiddleware F)
  pub processors : List ℕ
  pub parser : MessageParser

pub record MessageContext (F : Type 0) : Type 0 where
  pub frame : F
  pub connection_id : Option Text
  pub parser : MessageParser

-- What a call may change: the pipeline, the application and the metadata of its context.
pub record World (F S : Type 0) : Type 0 where
  pub pipeline : MessagePipeline F
  pub app : S

pub record Run (F S : Type 0) : Type 0 where
  pub world : World F S
  pub metadata : Dict Text Bytes

abbrev pub Outcome : Type 0 → Type 0 → Type 0
Outcome F S = Run F S × Result PipelineError (Option F)

-- The application's part, by allocation, and the wall clock.
pub record Application (F S : Type 0) : Type 0 where
  pub before : ℕ → MessageContext F → Run F S → Outcome F S
  pub after : ℕ → MessageContext F → Option F → Run F S → Outcome F S
  pub process : ℕ → MessageContext F → Run F S → Outcome F S
  pub wall_clock_ms : S → ℕ

module _ {F : Type 0} where
  unfoldable pub pipeline_new : MessageParser → MessagePipeline F
  pipeline_new p = record { middlewares = []; processors = []; parser = p }

  unfoldable pub update_parser : MessagePipeline F → MessageParser → MessagePipeline F
  update_parser l p = record l { parser = p }

  -- `sort_by_key`, which is stable.
  abbrev pub insert_sorted :
      MessageMiddleware F → List (MessageMiddleware F) → List (MessageMiddleware F)
  insert_sorted m [] = m ∷ []
  insert_sorted m (x ∷ xs) =
      let rest = insert_sorted m xs in
      if leb (priority m) (priority x) then m ∷ x ∷ xs else x ∷ rest

  unfoldable pub sort_by_priority : List (MessageMiddleware F) → List (MessageMiddleware F)
  sort_by_priority [] = []
  sort_by_priority (x ∷ xs) = insert_sorted x (sort_by_priority xs)

  unfoldable pub add_middleware : MessagePipeline F → MessageMiddleware F → MessagePipeline F
  unfolding sort_by_priority
  add_middleware l m = record l { middlewares = sort_by_priority (l.middlewares ++ m ∷ []) }

  unfoldable pub remove_middleware : MessagePipeline F → MessageMiddleware F → MessagePipeline F
  remove_middleware l m = record l {
    middlewares = filter (λ x. not (nat_beq x.ptr m.ptr)) l.middlewares;
  }

  unfoldable pub add_processor : MessagePipeline F → ℕ → MessagePipeline F
  add_processor l p = record l { processors = l.processors ++ p ∷ [] }

  unfoldable pub remove_processor : MessagePipeline F → ℕ → MessagePipeline F
  remove_processor l p = record l { processors = filter (λ x. not (nat_beq x p)) l.processors }

-- `to_le_bytes`, of `n` bytes.
abbrev pub to_le_bytes : ℕ → ℕ → Bytes
to_le_bytes zero x = []
to_le_bytes (suc n) x = x % 256 ∷ to_le_bytes n (x / 256)

module _ {F S : Type 0} (a : Application F S) where
  abbrev pub checked : Run F S → Result Text (Unit {0}) → Outcome F S
  checked r (ok u) = (r, ok none)
  checked r (err e) = (r, err (refused e))

  abbrev pub before_kind : MiddlewareKind F → ℕ → MessageContext F → Run F S → Outcome F S
  before_kind logging ptr ctx r = (r, ok none)
  before_kind metrics ptr ctx r =
      let start = to_le_bytes 8 (a.wall_clock_ms r.world.app) in
      (record r { metadata = insert (codes "start_time") start r.metadata }, ok none)
  before_kind (validation f) ptr ctx r = checked r (f ctx.frame)
  before_kind (application n) ptr ctx r = a.before ptr ctx r

  abbrev pub before : MessageContext F → MessageMiddleware F → Run F S → Outcome F S
  before ctx m r = before_kind m.kind m.ptr ctx r

  abbrev pub after_kind : MiddlewareKind F → ℕ → MessageContext F → Option F → Run F S → Outcome F S
  after_kind logging ptr ctx response r = (r, ok none)
  after_kind metrics ptr ctx response r = (r, ok response)
  after_kind (validation f) ptr ctx response r = (r, ok none)
  after_kind (application n) ptr ctx response r = a.after ptr ctx response r

  abbrev pub after : MessageContext F → MessageMiddleware F → Option F → Run F S → Outcome F S
  after ctx m response r = after_kind m.kind m.ptr ctx response r

  abbrev pub answered : Outcome F S → (Run F S → Outcome F S) → Outcome F S
  answered (r, ok none) rest = rest r
  answered (r, ok (some response)) rest = (r, ok (some response))
  answered (r, err e) rest = (r, err e)

  abbrev pub run_before : MessageContext F → List (MessageMiddleware F) → Run F S → Outcome F S
  run_before ctx [] r = (r, ok none)
  run_before ctx (m ∷ ms) r = answered (before ctx m r) (λ t. run_before ctx ms t)

  abbrev pub run_processors : MessageContext F → List ℕ → Run F S → Outcome F S
  run_processors ctx [] r = (r, ok none)
  run_processors ctx (p ∷ ps) r = answered (a.process p ctx r) (λ t. run_processors ctx ps t)

  abbrev pub modified : Option F → Outcome F S → (Option F → Run F S → Outcome F S) → Outcome F S
  modified response (r, ok none) rest = rest response r
  modified response (r, ok (some changed)) rest = rest (some changed) r
  modified response (r, err e) rest = (r, err e)

  abbrev pub run_after :
      MessageContext F → List (MessageMiddleware F) → Option F → Run F S → Outcome F S
  run_after ctx [] response r = (r, ok response)
  run_after ctx (m ∷ ms) response r =
      modified response (after ctx m response r) (λ changed t. run_after ctx ms changed t)

  abbrev pub after_processors : MessageContext F → Outcome F S → Outcome F S
  after_processors ctx (r, err e) = (r, err e)
  after_processors ctx (r, ok response) = run_after ctx r.world.pipeline.middlewares response r

  abbrev pub final : Outcome F S → World F S × Result PipelineError (Option F)
  final (r, result) = (r.world, result)

  unfoldable pub process_frame_with_parser :
      F → Option Text → MessageParser → World F S → World F S × Result PipelineError (Option F)
  process_frame_with_parser frame id p w =
      let ctx : MessageContext F = record { frame = frame; connection_id = id; parser = p } in
      let start : Run F S = record { world = w; metadata = [] } in
      final (
        answered (run_before ctx w.pipeline.middlewares start)
          (λ r. after_processors ctx (run_processors ctx r.world.pipeline.processors r)))

  unfoldable pub process_frame :
      F → Option Text → World F S → World F S × Result PipelineError (Option F)
  unfolding process_frame_with_parser
  process_frame frame id w = process_frame_with_parser frame id w.pipeline.parser w

  abbrev pub encoded : Result ParseError Bytes → Result PipelineError (Option Bytes)
  encoded (ok bytes) = ok (some bytes)
  encoded (err e) = err (encoding_error e)

  abbrev pub serialized :
      Codecs F
      → MessageParser
      → World F S × Result PipelineError (Option F)
      → World F S × Result PipelineError (Option Bytes)
  serialized c p (w, ok none) = (w, ok none)
  serialized c p (w, ok (some response)) = (w, encoded (serialize c p response))
  serialized c p (w, err e) = (w, err e)

  abbrev pub process_parsed :
      Codecs F
      → Option Text
      → World F S
      → Result ParseError F
      → World F S × Result PipelineError (Option Bytes)
  process_parsed c id w (err e) = (w, err (deserialization_error e))
  process_parsed c id w (ok frame) =
      serialized c w.pipeline.parser (process_frame_with_parser frame id w.pipeline.parser w)

  unfoldable pub process_raw :
      Codecs F → Bytes → Option Text → World F S → World F S × Result PipelineError (Option Bytes)
  unfolding process_frame_with_parser
  process_raw c bytes id w = process_parsed c id w (parse c w.pipeline.parser bytes)
