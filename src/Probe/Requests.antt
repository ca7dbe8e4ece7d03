-- ===== src/Probe/Requests.antt =====
-- crates/studio-core/src/session.rs: what a probe session is asked for, once its memory is open.
use tuning_tools.Base.{
  ℕ, ◌^◌, ltb, if◌then◌else◌, Bool, true, false, Option, none, some, List, [], ◌∷◌,
}
use tuning_tools.Carrier
use tuning_tools.Carrier.{MemoryAccess}
use tuning_tools.Message.{Message, Except, ok, err}
use tuning_tools.Tune
use tuning_tools.Tune.{Tuner, CatalogCheck, TuneValue}
use tuning_tools.RttTuning.{RttTuning, FramedRequest, Answer}
use tuning_tools.RttTuning.Calls.{attach_tuning, submit}
use tuning_tools.Session.{SessionEvent}
use tuning_tools.Probe.{Worker, TuneRequest, Output, Setting, State, Outcome, done, panics, ◌>>=◌}

-- The lengths from which on no buffer can be allocated.
abbrev pub alloc_limit : ℕ
alloc_limit = 2 ^ 63

-- The answers of the control channel, in the order that they are sent.
abbrev pub tell_all : List Answer → List Output → List Output
tell_all [] outs = outs
tell_all ((k, r) ∷ answers) outs = tell_all answers (Output.reply k r ∷ outs)

-- An error is kept as the last one.
abbrev pub note : Option Message → Worker → Worker
note none w = w
note (some e) w = record w { last_error = some e }

abbrev pub read_result : Carrier.Result (List (List ℕ)) → Except Message (List (List ℕ))
read_result (Carrier.ok bytes) = ok bytes
read_result (Carrier.err e) = err (Message.carrier e)

module _ (env : Setting) where
  open env use {memory, fl, float_bits, lossy, utf8}

  abbrev pub Open : Type 0
  Open = State × memory.Memory

  -- Regions that were read.
  abbrev pub Got : Type 0
  Got = Carrier.Result (List (List ℕ)) × memory.Memory

  abbrev pub with_bytes : List ℕ → Got → Got
  with_bytes bytes (Carrier.ok rest, m) = (Carrier.ok (bytes ∷ rest), m)
  with_bytes bytes (Carrier.err e, m) = (Carrier.err e, m)

  abbrev pub read_rest :
      (memory.Memory → Outcome Got) → Carrier.Result (List ℕ) × memory.Memory → Outcome Got
  read_rest next (Carrier.ok bytes, m) = next m >>= λ rest. done (with_bytes bytes rest)
  read_rest next (Carrier.err e, m) = done (Carrier.err e, m)

  -- The regions' bytes, up to the first that cannot be read. `vec![0; len]` panics where `len` is above
  -- `isize::MAX`.
  unfoldable pub read_regions : List (ℕ × ℕ) → memory.Memory → Outcome Got
  read_regions [] m = done (Carrier.ok [], m)
  read_regions ((address, len) ∷ regions) m =
      if ltb len alloc_limit
      then read_rest (λ m'. read_regions regions m') (memory.read m address len)
      else panics

  unfoldable pub serve_each :
      List (List (ℕ × ℕ) × ℕ) → List Output × memory.Memory → Outcome (List Output × memory.Memory)
  unfolding read_regions
  serve_each [] s = done s
  serve_each ((regions, k) ∷ reads) (outs, m) = read_regions regions m >>= λ (got, m').
      serve_each reads (Output.read_reply k (read_result got) ∷ outs, m')

  -- Answer queued one-off reads.
  unfoldable pub serve_reads : Open → Outcome Open
  unfolding serve_each
  serve_reads ((w, outs), m) =
      serve_each w.reads (outs, m) >>= λ (outs', m'). done ((record w { reads = [] }, outs'), m')

  -- The request as the control channel takes it; a value that the catalog cannot encode is refused.
  abbrev pub written : ℕ → Except Message (ℕ × ℕ) → Except Message FramedRequest
  written id (ok (tag, bits)) = ok (FramedRequest.write id tag bits)
  written id (err e) = err e

  unfoldable pub framed_request : Tuner → TuneRequest → Except Message FramedRequest
  framed_request t (TuneRequest.set id value) = written id (Tune.encode fl t id value)
  framed_request t TuneRequest.discard = ok FramedRequest.discard
  framed_request t TuneRequest.save = ok FramedRequest.save

  unfoldable pub submit_framed : ℕ → ℕ → RttTuning → Except Message FramedRequest → Open → Open
  submit_framed now k f (ok request) ((w, outs), m) =
      let (answers, (f', m')) = submit memory lossy now request k (f, m) in
      ((record w { framed = some f' }, tell_all answers outs), m')
  submit_framed now k f (err e) ((w, outs), m) = ((w, Output.reply k (err e) ∷ outs), m)

  -- The request's write into the table's cells, behind the check of the table.
  unfoldable pub into_cells :
      TuneRequest → Tuner → memory.Memory → Except Message (Unit {0}) × memory.Memory
  into_cells (TuneRequest.set id value) t m = Tune.request fl memory utf8 t id value m
  into_cells TuneRequest.discard t m = Tune.discard fl memory utf8 t m
  into_cells TuneRequest.save t m = (err Message.cannot_save, m)

  unfoldable pub request_cells : TuneRequest → ℕ → Tuner → Open → Open
  unfolding into_cells
  request_cells request k t ((w, outs), m) =
      let (e, (t', m')) = Tune.verify fl memory utf8 t m in
      let (result, m'') = into_cells request t' m' in
      ((note e (record w { tuner = some t' }), Output.reply k result ∷ outs), m'')

  abbrev pub through : Bool → Option RttTuning → ℕ → TuneRequest → ℕ → Tuner → Open → Open
  through true (some f) now request k t s = submit_framed now k f (framed_request t request) s
  through true none now request k t s = request_cells request k t s
  through false f now request k t s = request_cells request k t s

  -- One request: over the control channel where the firmware serves it, else into the table's cells.
  unfoldable pub serve_request : Bool → ℕ → TuneRequest → ℕ → Option Tuner → Open → Open
  unfolding submit_framed request_cells framed_request
  serve_request served now request k none ((w, outs), m) =
      ((w, Output.reply k (err Message.no_table) ∷ outs), m)
  serve_request served now request k (some t) ((w, outs), m) =
      through served w.framed now request k t ((w, outs), m)

  unfoldable pub serve_all : Bool → ℕ → List (TuneRequest × ℕ) → Open → Open
  unfolding serve_request
  serve_all served now [] s = s
  serve_all served now ((request, k) ∷ requests) ((w, outs), m) =
      serve_all served now requests (serve_request served now request k w.tuner ((w, outs), m))

  -- Whether the firmware serves requests, with the control channel's end that was looked for.
  unfoldable pub attach_framed :
      ℕ → Option RttTuning → memory.Memory → Bool × (Option RttTuning × memory.Memory)
  attach_framed now none m = (false, (none, m))
  attach_framed now (some f) m =
      let (found, (f', m')) = attach_tuning memory lossy now (f, m) in (found, (some f', m'))

  unfoldable pub serve_queued : ℕ → List (TuneRequest × ℕ) → Open → Bool × Open
  unfolding serve_all attach_framed
  serve_queued now [] s = (false, s)
  serve_queued now (r ∷ requests) ((w, outs), m) =
      let (served, (framed, m')) = attach_framed now w.framed m in
      (
        true,
        serve_all served now (r ∷ requests)
            ((record w { framed = framed; requests = [] }, outs), m'),
      )

  -- Send queued requests; `true` when any was attempted.
  unfoldable pub serve_requests : ℕ → Open → Bool × Open
  unfolding serve_queued
  serve_requests now ((w, outs), m) = serve_queued now w.requests ((w, outs), m)

  -- The table's values, where the target's table is the ELF's.
  unfoldable pub tune_values : CatalogCheck → Tuner → memory.Memory → List TuneValue × memory.Memory
  tune_values CatalogCheck.matches t m = Tune.sample fl memory utf8 float_bits t m
  tune_values CatalogCheck.checking t m = ([], m)
  tune_values (CatalogCheck.differs e) t m = ([], m)

  unfoldable pub report_tuner : Option Tuner → Open → Open
  unfolding tune_values
  report_tuner none s = s
  report_tuner (some t) ((w, outs), m) =
      let (e, (t', m')) = Tune.verify fl memory utf8 t m in
      let (values, m'') = tune_values t'.check t' m' in
      (
        (
          note e (record w { tuner = some t' }),
          Output.event (SessionEvent.tune t'.check values) ∷ outs,
        ),
        m'',
      )

  unfoldable pub report_tune : Open → Open
  unfolding report_tuner
  report_tune ((w, outs), m) = report_tuner w.tuner ((w, outs), m)
