-- ===== src/Pipeline/Laws.antt =====
-- What src/common/message/pipeline.rs promises of a frame and of raw bytes.
use flare_core.Base.{
  ℕ, ◌≡◌, refl, ◌∙◌, ap, Bool, true, ◌&&◌, List, [], ◌∷◌, Option, none, some, arith, Text, ltb,
  Result, ok, err,
}
use flare_core.Connection.Info.{MessageParser}
use flare_core.Parser.{Bytes, Codecs, ParseError, parse, parse_with_fallback, serialize}
use flare_core.Parser.Laws.{IsLawful, parse-serialize}
use flare_core.Pipeline.{
  MiddlewareKind, logging, metrics, validation, application, MessageMiddleware, priority_of,
  MessageContext, World, Run, Outcome, Application, PipelineError, refused, priority, run_before,
  before_kind, checked, answered, process_frame, process_frame_with_parser, process_raw,
  process_parsed, serialized, encoded, pipeline_new,
}
use flare_core.Pipeline.Order.{all_from, is_sorted, Edit, edit_all, edit_all-is_sorted}

abbrev failure : {A : Type 0} → Result Text A → Option Text → Option Text
failure (ok u) later = later
failure (err e) later = some e

abbrev failure_of : {F : Type 0} → F → MiddlewareKind F → Option Text → Option Text
failure_of frame (validation f) later = failure (f frame) later
failure_of frame _ later = later

-- The refusal of the first validator that refuses the frame.
abbrev pub refusal : {F : Type 0} → F → List (MessageMiddleware F) → Option Text
refusal frame [] = none
refusal frame (m ∷ ms) = failure_of frame m.kind (refusal frame ms)

abbrev is_behind : {F : Type 0} → MiddlewareKind F → Bool
is_behind (application n) = ltb 5 n
is_behind _ = true

-- The application's middlewares come after the validators.
abbrev pub all_behind : {F : Type 0} → List (MessageMiddleware F) → Bool
all_behind [] = true
all_behind (m ∷ ms) = is_behind m.kind && all_behind ms

module _ {F : Type 0} where
  failure_of-later :
      (frame : F) (k : MiddlewareKind F) (later : Option Text)
      → ltb 5 (priority_of k) ≡ true
      → failure_of frame k later ≡ later
  failure_of-later frame logging later h = refl
  failure_of-later frame metrics later h = refl
  failure_of-later frame (validation f) later h = ground arith
  failure_of-later frame (application n) later h = refl

  refusal-all_from :
      (frame : F) (n : ℕ) (ms : List (MessageMiddleware F))
      → ltb 5 n ≡ true
      → all_from n ms ≡ true
      → refusal frame ms ≡ none
  refusal-all_from frame n [] h g = refl
  refusal-all_from frame n (m ∷ ms) h g =
      failure_of-later frame m.kind (refusal frame ms) (ground arith)
      ∙ refusal-all_from frame n ms h (ground arith)

module _ {F S : Type 0} (a : Application F S) where
  -- What is left answers with the refusal, if it is left to refuse.
  abbrev GivesUp : Run F S → Option Text → Text → (Run F S → Outcome F S) → Type 0
  GivesUp r later e rest = later ≡ some e → rest r ≡ (r, err (refused e))

  checked-refused :
      (v : Result Text (Unit {0})) (r : Run F S) (later : Option Text) (e : Text)
      (rest : Run F S → Outcome F S)
      → failure v later ≡ some e
      → GivesUp r later e rest
      → answered a (checked a r v) rest ≡ (r, err (refused e))
  checked-refused (ok u) r later e rest h g = g h
  checked-refused (err t) r later e rest h g = ground arith

  before-refused :
      (k : MiddlewareKind F) (ptr : ℕ) (ctx : MessageContext F) (r : Run F S) (later : Option Text)
      (e : Text) (rest : Run F S → Outcome F S)
      → is_behind k ≡ true
      → (ltb 5 (priority_of k) ≡ true → later ≡ none)
      → failure_of ctx.frame k later ≡ some e
      → GivesUp r later e rest
      → answered a (before_kind a k ptr ctx r) rest ≡ (r, err (refused e))
  before-refused logging ptr ctx r later e rest b n h g = g h
  before-refused metrics ptr ctx r later e rest b n h g = absurd (ground (arith, n refl))
  before-refused (validation f) ptr ctx r later e rest b n h g =
      checked-refused (f ctx.frame) r later e rest h g
  before-refused (application p) ptr ctx r later e rest b n h g = absurd (ground (arith, n b))

  run_before-refused :
      (ctx : MessageContext F) (ms : List (MessageMiddleware F)) (r : Run F S) (e : Text)
      → is_sorted ms ≡ true
      → all_behind ms ≡ true
      → refusal ctx.frame ms ≡ some e
      → run_before a ctx ms r ≡ (r, err (refused e))
  run_before-refused ctx [] r e s b h = absurd (ground arith)
  run_before-refused ctx (m ∷ ms) r e s b h =
      before-refused m.kind m.ptr ctx r (refusal ctx.frame ms) e (λ t. run_before a ctx ms t)
        (ground arith) (λ p. refusal-all_from ctx.frame (priority m) ms p (ground arith)) h
        (λ q. run_before-refused ctx ms r e (ground arith) (ground arith) q)

  -- In a pipeline that was new, whatever was added, removed and updated, a frame that a validator
  -- refuses gives the refusal of the first validator that refuses it, and leaves the pipeline and
  -- the application as they were, if the application's middlewares have greater priority numbers
  -- than the validators.
  pub process_frame-refused :
      (p : MessageParser) (es : List (Edit F)) (frame : F) (id : Option Text) (app : S) (e : Text)
      → all_behind (edit_all (pipeline_new p) es).middlewares ≡ true
      → refusal frame (edit_all (pipeline_new p) es).middlewares ≡ some e
      → let w : World F S = record { pipeline = edit_all (pipeline_new p) es; app = app } in
        process_frame a frame id w ≡ (w, err (refused e))
  unfolding process_frame process_frame_with_parser
  process_frame-refused p es frame id app e b h =
      let l = edit_all (pipeline_new p) es in
      let ctx : MessageContext F = record {
        frame = frame;
        connection_id = id;
        parser = l.parser;
      } in
      let start : Run F S = record { world = record { pipeline = l; app = app }; metadata = [] } in
      rw (run_before-refused ctx l.middlewares start e (edit_all-is_sorted p es) b h) refl

  encoded-ok :
      (r : Result ParseError Bytes) (bytes : Bytes) → encoded a r ≡ ok (some bytes) → r ≡ ok bytes
  encoded-ok (ok b) bytes h = ground arith
  encoded-ok (err e) bytes h = absurd (ground arith)

  serialized-ok :
      (c : Codecs F) (p : MessageParser) (o : World F S × Result PipelineError (Option F))
      (w : World F S) (bytes : Bytes)
      → serialized a c p o ≡ (w, ok (some bytes))
      → (response : F) × (o ≡ (w, ok (some response))) × (serialize c p response ≡ ok bytes)
  serialized-ok c p (v, ok none) w bytes h = absurd (ground arith)
  serialized-ok c p (v, ok (some response)) w bytes h =
      let same : v ≡ w = ap (λ x. x.0) h in
      (
        response,
        ap (λ x. (x, ok (some response))) same,
        encoded-ok (serialize c p response) bytes (ap (λ x. x.1) h),
      )
  serialized-ok c p (v, err e) w bytes h = absurd (ground arith)

  process_parsed-ok :
      (c : Codecs F) (id : Option Text) (w v : World F S) (parsed : Result ParseError F)
      (bytes : Bytes)
      → process_parsed a c id w parsed ≡ (v, ok (some bytes))
      → (frame : F) × (parsed ≡ ok frame)
        × (response : F) × (process_frame_with_parser a frame id w.pipeline.parser w
            ≡ (v, ok (some response)))
        × (serialize c w.pipeline.parser response ≡ ok bytes)
  process_parsed-ok c id w v (ok frame) bytes h =
      let (response, got, wrote) = serialized-ok c w.pipeline.parser _ v bytes h in
      (frame, refl, response, got, wrote)
  process_parsed-ok c id w v (err e) bytes h = absurd (ground arith)

  -- If the codecs that the pipeline's parser uses read back what they write of any response, a
  -- reply to raw bytes is read back, strictly and leniently, by the parser that read the request,
  -- as the response that the request's frame got, whatever the processors and the middlewares made
  -- of the pipeline's parser meanwhile.
  pub process_raw-reply :
      (c : Codecs F) (w v : World F S) (id : Option Text) (bytes reply : Bytes) (allow : Bool)
      → ((response : F) → IsLawful c w.pipeline.parser response)
      → process_raw a c bytes id w ≡ (v, ok (some reply))
      → (frame : F) × (parse c w.pipeline.parser bytes ≡ ok frame)
        × (response : F) × (process_frame_with_parser a frame id w.pipeline.parser w
            ≡ (v, ok (some response)))
        × (parse_with_fallback c w.pipeline.parser reply allow ≡ ok response)
  unfolding process_raw
  process_raw-reply c w v id bytes reply allow lawful h =
      let (frame, read, response, got, wrote) = process_parsed-ok c id w v _ reply h in
      (
        frame,
        read,
        response,
        got,
        parse-serialize c w.pipeline.parser response reply allow (lawful response) wrote,
      )
