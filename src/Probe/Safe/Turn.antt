-- ===== src/Probe/Safe/Turn.antt =====
-- crates/studio-core/src/session.rs: a turn of the loop keeps the worker sound.
use tuning_tools.Base.{
  ◌<◌, arith, ℕ, zero, suc, ◌≡◌, sym, ap, ◌∙◌, Bool, true, false, ◌||◌, ◌&&◌, Option, none, some,
  List, [], ◌∷◌, map, length, length-map, if◌then◌else◌, ltb, ◌==◌,
}
use tuning_tools.Carrier
use tuning_tools.Message.{Message, Except, ok, err}
use tuning_tools.Batch.Builder.{push-HoldsRows}
use tuning_tools.ReadPlan
use tuning_tools.ReadPlan.{ReadPlan, SampleOutcome}
use tuning_tools.ReadPlan.Row.{length-sample}
use tuning_tools.Stats.{record_tick}
use tuning_tools.Ticker
use tuning_tools.Tune.{Tuner}
use tuning_tools.Rtt.Channels.{RttReader, reader_read}
use tuning_tools.RttTuning.{RttTuning, Polled, FramedRequest}
use tuning_tools.RttTuning.Calls.{attach_tuning, poll}
use tuning_tools.Probe.{Worker, TuneRequest, Output, Setting, State, log_len}
use tuning_tools.Probe.Requests.{
  alloc_limit, read_regions, read_rest, serve_each, Open, note, through, framed_request,
  submit_framed, request_cells, serve_request, serve_all, serve_queued, serve_requests, serve_reads,
  report_tuner, report_tune, attach_framed,
}
use tuning_tools.Probe.Turn.{
  note_outcome, carrier_error, push_row, sample, pump, pumped, pump_reader, pump_log, polled,
  poll_framed, log_turn, frame_turn, report_stats, stats_turn, tune_turn,
}
use tuning_tools.Probe.Safe.{
  RegionsFit, ReadsFit, Safe, Safe-bind, if_Safe, Rows, IsSound, Sound, flush_frame-Safe,
}

module _ (env : Setting) where
  open env use {memory, float_bits, lossy, rounds, ops}

  -- With the memory at hand.
  abbrev pub OpenSound : Open env → Type 0
  OpenSound s = IsSound env s.0.0

  if_OpenSound :
      (b : Bool) (s s' : Open env) → OpenSound s → OpenSound s' → OpenSound (if b then s else s')
  if_OpenSound true s s' h h' = h
  if_OpenSound false s s' h h' = h'

  pub note-IsSound : (e : Option Message) (w : Worker) → IsSound env w → IsSound env (note e w)
  note-IsSound none w h = h
  note-IsSound (some e) w h = h

  submit_framed-Sound :
      (now k : ℕ) (f : RttTuning) (r : Except Message FramedRequest) (s : Open env)
      → OpenSound s
      → OpenSound (submit_framed env now k f r s)
  unfolding submit_framed
  submit_framed-Sound now k f (ok request) s h = h
  submit_framed-Sound now k f (err e) s h = h

  request_cells-Sound :
      (request : TuneRequest) (k : ℕ) (t : Tuner) (s : Open env)
      → OpenSound s
      → OpenSound (request_cells env request k t s)
  unfolding request_cells
  request_cells-Sound request k t ((w, outs), m) h = note-IsSound _ _ h

  through-Sound :
      (served : Bool) (f : Option RttTuning) (now : ℕ) (request : TuneRequest) (k : ℕ) (t : Tuner)
      (s : Open env)
      → OpenSound s
      → OpenSound (through env served f now request k t s)
  through-Sound true (some f) now request k t s h =
      submit_framed-Sound now k f (framed_request env t request) s h
  through-Sound true none now request k t s h = request_cells-Sound request k t s h
  through-Sound false f now request k t s h = request_cells-Sound request k t s h

  serve_request-Sound :
      (served : Bool) (now : ℕ) (request : TuneRequest) (k : ℕ) (t : Option Tuner) (s : Open env)
      → OpenSound s
      → OpenSound (serve_request env served now request k t s)
  unfolding serve_request
  serve_request-Sound served now request k none s h = h
  serve_request-Sound served now request k (some t) ((w, outs), m) h =
      through-Sound served w.framed now request k t ((w, outs), m) h

  serve_all-Sound :
      (served : Bool) (now : ℕ) (requests : List (TuneRequest × ℕ)) (s : Open env)
      → OpenSound s
      → OpenSound (serve_all env served now requests s)
  unfolding serve_all
  serve_all-Sound served now [] s h = h
  serve_all-Sound served now ((request, k) ∷ requests) ((w, outs), m) h =
      serve_all-Sound served now requests _
        (serve_request-Sound served now request k w.tuner ((w, outs), m) h)

  serve_queued-Sound :
      (now : ℕ) (requests : List (TuneRequest × ℕ)) (s : Open env)
      → OpenSound s
      → OpenSound (serve_queued env now requests s).1
  unfolding serve_queued
  serve_queued-Sound now [] s h = h
  serve_queued-Sound now (r ∷ requests) ((w, outs), m) h =
      let (served, (framed, m')) = attach_framed env now w.framed m in
      serve_all-Sound served now (r ∷ requests)
        ((record w { framed = framed; requests = [] }, outs), m') h

  pub serve_requests-Sound :
      (now : ℕ) (s : Open env) → OpenSound s → OpenSound (serve_requests env now s).1
  unfolding serve_requests
  serve_requests-Sound now ((w, outs), m) h = serve_queued-Sound now w.requests ((w, outs), m) h

  read_regions-Safe :
      (regions : List (ℕ × ℕ)) (m : memory.Memory)
      → RegionsFit regions
      → Safe (λ r. Unit {0}) (read_regions env regions m)
  unfolding read_regions
  read_regions-Safe [] m h = tt
  read_regions-Safe ((address, len) ∷ regions) m h =
      let fits : ltb len alloc_limit ≡ true = small h.0 in
      rw fits (rest (memory.read m address len) (λ m'. read_regions-Safe regions m' h.1))
    where
      small : len < alloc_limit → ltb len alloc_limit ≡ true
      small p = ground arith

      rest :
          (x : Carrier.Result (List ℕ) × memory.Memory)
          → ((m' : memory.Memory) → Safe (λ r. Unit {0}) (read_regions env regions m'))
          → Safe (λ r. Unit {0}) (read_rest env (λ m'. read_regions env regions m') x)
      rest (Carrier.err e, m') k = tt
      rest (Carrier.ok bytes, m') k =
          Safe-bind (λ r. Unit {0}) (λ r. Unit {0}) (read_regions env regions m') _ (k m')
            (λ r h. tt)

  serve_each-Safe :
      (reads : List (List (ℕ × ℕ) × ℕ)) (s : List Output × memory.Memory)
      → ReadsFit reads
      → Safe (λ r. Unit {0}) (serve_each env reads s)
  unfolding serve_each
  serve_each-Safe [] s h = tt
  serve_each-Safe ((regions, k) ∷ reads) (outs, m) h =
      Safe-bind (λ r. Unit {0}) (λ r. Unit {0}) (read_regions env regions m) _
        (read_regions-Safe regions m h.0) (λ r u. serve_each-Safe reads _ h.1)

  pub serve_reads-Safe : (s : Open env) → OpenSound s → Safe OpenSound (serve_reads env s)
  unfolding serve_reads
  serve_reads-Safe ((w, outs), m) (rows, (range, reads)) =
      Safe-bind (λ r. Unit {0}) OpenSound (serve_each env w.reads (outs, m)) _
        (serve_each-Safe w.reads (outs, m) reads) (λ r u. (rows, (range, tt)))

  report_tuner-Sound :
      (t : Option Tuner) (s : Open env) → OpenSound s → OpenSound (report_tuner env t s)
  unfolding report_tuner
  report_tuner-Sound none s h = h
  report_tuner-Sound (some t) ((w, outs), m) h = note-IsSound _ _ h

  pub tune_turn-Sound :
      (now : ℕ) (wrote : Bool) (s : Open env) → OpenSound s → OpenSound (tune_turn env now wrote s)
  unfolding tune_turn report_tune
  tune_turn-Sound now wrote ((w, outs), m) h =
      let w' : Worker = record w { tune_tick = (Ticker.poll w.tune_tick now).1 } in
      if_OpenSound ((Ticker.poll w.tune_tick now).0 || wrote) _ _
        (report_tuner-Sound w'.tuner ((w', outs), m) h) h

  pub stats_turn-Sound : (now : ℕ) (s : Open env) → OpenSound s → OpenSound (stats_turn env now s)
  unfolding stats_turn report_stats
  stats_turn-Sound now ((w, outs), m) h = if_OpenSound (Ticker.poll w.stats_tick now).0 _ _ h h

  pub frame_turn-Safe :
      (now : ℕ) (s : State) → Sound env s → Safe (Sound env) (frame_turn env now s)
  unfolding frame_turn
  frame_turn-Safe now (w, outs) h =
      if_Safe (Sound env) (Ticker.poll w.frame_tick now).0 _ _ (flush_frame-Safe env _ h) h

  pumped-Sound :
      (now : ℕ) (next : RttReader → Open env → Open env) (s : State)
      (r : Carrier.Result (List ℕ) × (RttReader × memory.Memory))
      → Sound env s
      → ((r' : RttReader) (s' : Open env) → OpenSound s' → OpenSound (next r' s'))
      → OpenSound (pumped env now next s r)
  pumped-Sound now next (w, outs) (Carrier.err e, (r, m)) h k = h
  pumped-Sound now next (w, outs) (Carrier.ok bytes, (r, m)) h k =
      if_OpenSound (length bytes == 0) _ _ h
        (if_OpenSound (ltb (length bytes) log_len) _ _ h (k r _ h))

  pump-Sound :
      (now n : ℕ) (r : RttReader) (s : Open env) → OpenSound s → OpenSound (pump env now n r s)
  unfolding pump
  pump-Sound now zero r s h = h
  pump-Sound now (suc n) r (s, m) h =
      pumped-Sound now (λ r' s'. pump env now n r' s') s
        (reader_read memory lossy now log_len (r, m)) h (λ r' s' h'. pump-Sound now n r' s' h')

  pump_log-Sound : (now : ℕ) (s : Open env) → OpenSound s → OpenSound (pump_log env now s)
  unfolding pump_log
  pump_log-Sound now ((w, outs), m) h = if_OpenSound w.decodes _ _ (for_reader w.rtt) h
    where
      for_reader : (r : Option RttReader) → OpenSound (pump_reader env now r ((w, outs), m))
      for_reader none = h
      for_reader (some r) = pump-Sound now 8 r ((w, outs), m) h

  poll_framed-Safe :
      (now : ℕ) (f : Option RttTuning) (s : Open env)
      → OpenSound s
      → Safe (λ r. OpenSound r.1) (poll_framed env now f s)
  unfolding poll_framed
  poll_framed-Safe now none s h = h
  poll_framed-Safe now (some f) ((w, outs), m) h =
      go (poll memory lossy rounds now (attach_tuning memory lossy now (f, m)).1)
    where
      go :
          (r : Option (Polled × (RttTuning × memory.Memory)))
          → Safe (λ r. OpenSound r.1) (polled env w outs r)
      go none = tt
      go (some (out, (f', m'))) = note-IsSound out.error _ h

  pub log_turn-Safe :
      (now : ℕ) (s : Open env) → OpenSound s → Safe (λ r. OpenSound r.1) (log_turn env now s)
  unfolding log_turn
  log_turn-Safe now ((w, outs), m) h =
      let w' : Worker = record w { log_tick = (Ticker.poll w.log_tick now).1 } in
      if_Safe (λ r. OpenSound r.1) (Ticker.poll w.log_tick now).0 _ _
        (poll_framed-Safe now _ (pump_log env now ((w', outs), m))
          (pump_log-Sound now ((w', outs), m) h))
        h

  note_outcome-IsSound :
      (now : ℕ) (o : SampleOutcome) (w : Worker)
      → IsSound env w
      → IsSound env (note_outcome env now o w).1
  unfolding note_outcome
  note_outcome-IsSound now o w h =
      if_IsSound (o.regions_ok == 0 && ltb 0 o.regions_failed) _ _ noted noted
    where
      noted : IsSound env (note (carrier_error o.first_error) w)
      noted = note-IsSound (carrier_error o.first_error) w h

      if_IsSound :
          (b : Bool) (r r' : Option Message × Worker)
          → IsSound env r.1
          → IsSound env r'.1
          → IsSound env (if b then r else r').1
      if_IsSound true r r' h h' = h
      if_IsSound false r r' h h' = h'

  -- A row is as wide as the frame, and is taken.
  push_row-Safe :
      (time : ℕ) (row : List ℕ) (w : Worker)
      → IsSound env w
      → length row ≡ length w.plan.items
      → Safe (IsSound env) (push_row env time row w)
  unfolding push_row Rows
  push_row-Safe time row w ((rows, wide), range) e =
      let (frame, there, rows', ids) = push-HoldsRows w.frame time row rows (e ∙ sym wide) in
      rw (Safe, there) ((rows', ap length ids ∙ wide), range)

  pub sample-Safe :
      (now started read_us : ℕ) (w : Worker) (m : memory.Memory)
      → IsSound env w
      → Safe (λ r. IsSound env r.1.0) (sample env now started read_us w m)
  unfolding sample
  sample-Safe now started read_us w m h =
      let ((row, o), m') = ReadPlan.sample memory w.plan m in
      Safe-bind (IsSound env) _ (push_row env _ (map float_bits row) _) _
        (push_row-Safe _ (map float_bits row)
          (record w { stats = record_tick w.stats now read_us o.bytes o.regions_failed }) h
          (length-map row float_bits ∙ length-sample memory w.plan m))
        (λ w' h'. note_outcome-IsSound now o w' h')
