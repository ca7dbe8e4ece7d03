-- ===== src/Probe/Still.antt =====
-- crates/studio-core/src/session.rs: the parts of a turn that answer no request.
use tuning_tools.Base.{
  ℕ, zero, suc, ◌+◌, ◌≡◌, refl, ◌∙◌, Bool, true, false, ◌||◌, ◌&&◌, Option, none, some, List, [],
  ◌∷◌, map, length, if◌then◌else◌, ltb, ◌==◌,
}
use tuning_tools.Carrier
use tuning_tools.Message.{Message}
use tuning_tools.Batch
use tuning_tools.Batch.{FrameBuilder, SampleBatch, take_pending}
use tuning_tools.ReadPlan
use tuning_tools.ReadPlan.{ReadItem, SampleOutcome}
use tuning_tools.Stats.{record_tick}
use tuning_tools.Ticker
use tuning_tools.Ticker.{Ticker}
use tuning_tools.Tune.{Tuner}
use tuning_tools.Rtt.Channels.{RttReader, reader_read}
use tuning_tools.RttTuning.Answers.{owes}
use tuning_tools.Probe.{
  Worker, Output, Setting, Outcome, done, panics, runs_on, ◌>>=◌, State, started, deliver,
  flush_frame, sampler_for, restart_sampler, watching, set_watches, set_rate, log_len,
}
use tuning_tools.Probe.Requests.{
  Open, note, read_result, read_regions, serve_each, serve_reads, report_tuner, report_tune,
}
use tuning_tools.Probe.Turn.{
  note_outcome, carrier_error, push_row, sample, pump, pumped, pump_reader, pump_log, frame_turn,
  report_stats, stats_turn, tune_turn,
}

-- A result that holds where there is one.
abbrev pub Given : {A : Type 0} → (A → Type 0) → Outcome A → Type 0
Given P (done a) = P a
Given P panics = Unit
Given P runs_on = Unit

pub Given-bind :
    {A B : Type 0} (P : A → Type 0) (Q : B → Type 0) (r : Outcome A) (f : A → Outcome B)
    → Given P r
    → ((a : A) → P a → Given Q (f a))
    → Given Q (r >>= f)
Given-bind P Q (done a) f h k = k a h
Given-bind P Q panics f h k = tt
Given-bind P Q runs_on f h k = tt

pub if_Given :
    {A : Type 0} (P : A → Type 0) (b : Bool) (r r' : Outcome A)
    → Given P r
    → Given P r'
    → Given P (if b then r else r')
if_Given P true r r' h h' = h
if_Given P false r r' h h' = h'

any_Given : {A : Type 0} (r : Outcome A) → Given (λ a. Unit {0}) r
any_Given (done a) = tt
any_Given panics = tt
any_Given runs_on = tt

-- The answers that went to a channel.
unfoldable pub replied : ℕ → List Output → ℕ
unfolding owes
replied k [] = 0
replied k (Output.reply j r ∷ outs) = owes k (some j) + replied k outs
replied k (Output.event e ∷ outs) = replied k outs
replied k (Output.samples b ∷ outs) = replied k outs
replied k (Output.frame bytes ∷ outs) = replied k outs
replied k (Output.read_reply j r ∷ outs) = replied k outs
replied k (Output.log_bytes t bytes ∷ outs) = replied k outs

-- The requests, those that wait for the firmware, and the answers are as before.
abbrev pub SameWaiting : Worker → Worker → Type 0
SameWaiting w w' = (w'.requests ≡ w.requests) × (w'.framed ≡ w.framed)

abbrev pub Still : State → State → Type 0
Still (w, outs) (w', outs') = SameWaiting w w' × ((k : ℕ) → replied k outs' ≡ replied k outs)

pub Still-trans : (a b c : State) → Still a b → Still b c → Still a c
Still-trans (a, x) (b, y) (c, z) ((p, q), f) ((r, s), g) = ((r ∙ p, s ∙ q), λ k. g k ∙ f k)

module _ (env : Setting) where
  open env use {memory, fl, ops, float_bits, clamp, taken, lossy}

  if_Still : (b : Bool) (a s s' : State) → Still a s → Still a s' → Still a (if b then s else s')
  if_Still true a s s' h h' = h
  if_Still false a s s' h h' = h'

  deliver-Still :
      (batch : Option SampleBatch) (s : State) → Given (λ s'. Still s s') (deliver env batch s)
  unfolding deliver replied
  deliver-Still none s = ((refl, refl), λ k. refl)
  deliver-Still (some batch) (w, outs) = encoded (Batch.encode batch) refl
    where
      encoded :
          (bytes : Option (List ℕ))
          → Batch.encode batch ≡ bytes
          → Given (λ s'. Still (w, outs) s') (deliver env (some batch) (w, outs))
      encoded none e = rw (Given, e) tt
      encoded (some bytes) e = rw (Given, e) ((refl, refl), λ k. refl)

  pub flush_frame-Still : (s : State) → Given (λ s'. Still s s') (flush_frame env s)
  unfolding flush_frame
  flush_frame-Still (w, outs) =
      deliver-Still (take_pending w.frame).0 (record w { frame = (take_pending w.frame).1 }, outs)

  restart_sampler-Same :
      (at : ℕ) (w : Worker) → Given (λ w'. SameWaiting w w') (restart_sampler env at w)
  unfolding restart_sampler
  restart_sampler-Same at w =
      Given-bind (λ t. Unit {0}) (λ w'. SameWaiting w w') (sampler_for env at w) _
        (any_Given (sampler_for env at w)) (λ t u. (refl, refl))

  pub set_watches-Still :
      (at : ℕ) (items : List ReadItem) (s : State)
      → Given (λ s'. Still s s') (set_watches env at items s)
  unfolding set_watches
  set_watches-Still at items s =
      Given-bind (λ s'. Still s s') (λ s'. Still s s') (flush_frame env s) _ (flush_frame-Still s)
        (λ s' h.
          Given-bind (λ w. SameWaiting s'.0 w) (λ s'. Still s s')
            (restart_sampler env at (watching env items s'.0)) _
            (restart_sampler-Same at (watching env items s'.0))
            (λ w h'. Still-trans s s' (w, s'.1) h (h', λ k. refl)))

  pub set_rate-Still : (at hz : ℕ) (s : State) → Given (λ s'. Still s s') (set_rate env at hz s)
  unfolding set_rate
  set_rate-Still at hz (w, outs) =
      let ranged : Worker = record w { rate_hz = clamp hz } in
      if_Given (λ s'. Still (w, outs) s') (fl.is_finite hz) _ _
        (Given-bind (λ w'. SameWaiting w w') (λ s'. Still (w, outs) s')
          (restart_sampler env at ranged) _ (restart_sampler-Same at ranged)
          (λ w' h. (h, λ k. refl)))
        ((refl, refl), λ k. refl)

  pub note_Same :
      (e : Option Message) (w w' : Worker) → SameWaiting w w' → SameWaiting w (note e w')
  note_Same none w w' h = h
  note_Same (some e) w w' h = h

  serve_each-replied :
      (reads : List (List (ℕ × ℕ) × ℕ)) (s : List Output × memory.Memory)
      → Given (λ s'. (k : ℕ) → replied k s'.0 ≡ replied k s.0) (serve_each env reads s)
  unfolding serve_each replied
  serve_each-replied [] s = λ k. refl
  serve_each-replied ((regions, j) ∷ reads) (outs, m) =
      Given-bind (λ r. Unit {0}) (λ s'. (k : ℕ) → replied k s'.0 ≡ replied k outs)
        (read_regions env regions m) _ (any_Given (read_regions env regions m))
        (λ r u. serve_each-replied reads (Output.read_reply j (read_result r.0) ∷ outs, r.1))

  pub serve_reads-Still : (s : Open env) → Given (λ s'. Still s.0 s'.0) (serve_reads env s)
  unfolding serve_reads
  serve_reads-Still ((w, outs), m) =
      Given-bind (λ s'. (k : ℕ) → replied k s'.0 ≡ replied k outs) (λ s'. Still (w, outs) s'.0)
        (serve_each env w.reads (outs, m)) _ (serve_each-replied w.reads (outs, m))
        (λ s' h. ((refl, refl), h))

  report_tuner-Still : (t : Option Tuner) (s : Open env) → Still s.0 (report_tuner env t s).0
  unfolding report_tuner replied
  report_tuner-Still none s = ((refl, refl), λ k. refl)
  report_tuner-Still (some t) ((w, outs), m) = (note_Same _ w _ (refl, refl), λ k. refl)

  if_OpenStill :
      (b : Bool) (a : State) (s s' : Open env)
      → Still a s.0
      → Still a s'.0
      → Still a (if b then s else s').0
  if_OpenStill true a s s' h h' = h
  if_OpenStill false a s s' h h' = h'

  pub tune_turn-Still :
      (now : ℕ) (wrote : Bool) (s : Open env) → Still s.0 (tune_turn env now wrote s).0
  unfolding tune_turn report_tune
  tune_turn-Still now wrote ((w, outs), m) =
      let w' : Worker = record w { tune_tick = (Ticker.poll w.tune_tick now).1 } in
      if_OpenStill ((Ticker.poll w.tune_tick now).0 || wrote) (w, outs) _ _
        (report_tuner-Still w'.tuner ((w', outs), m)) ((refl, refl), λ k. refl)

  pub stats_turn-Still : (now : ℕ) (s : Open env) → Still s.0 (stats_turn env now s).0
  unfolding stats_turn report_stats replied
  stats_turn-Still now ((w, outs), m) =
      if_OpenStill (Ticker.poll w.stats_tick now).0 (w, outs) _ _ ((refl, refl), λ k. refl)
        ((refl, refl), λ k. refl)

  pub frame_turn-Still : (now : ℕ) (s : State) → Given (λ s'. Still s s') (frame_turn env now s)
  unfolding frame_turn
  frame_turn-Still now (w, outs) =
      if_Given (λ s'. Still (w, outs) s') (Ticker.poll w.frame_tick now).0 _ _ (flush_frame-Still _)
        ((refl, refl), λ k. refl)

  pumped-Still :
      (now : ℕ) (next : RttReader → Open env → Open env) (s : State)
      (r : Carrier.Result (List ℕ) × (RttReader × memory.Memory))
      → ((r' : RttReader) (s' : Open env) → Still s s'.0 → Still s (next r' s').0)
      → Still s (pumped env now next s r).0
  unfolding replied
  pumped-Still now next (w, outs) (Carrier.err e, (r, m)) k = ((refl, refl), λ k. refl)
  pumped-Still now next (w, outs) (Carrier.ok bytes, (r, m)) k =
      if_OpenStill (length bytes == 0) (w, outs) _ _ ((refl, refl), λ k. refl)
        (if_OpenStill (ltb (length bytes) log_len) (w, outs) _ _ ((refl, refl), λ k. refl)
          (k r _ ((refl, refl), λ k. refl)))

  pump-Still : (now n : ℕ) (r : RttReader) (s : Open env) → Still s.0 (pump env now n r s).0
  unfolding pump
  pump-Still now zero r s = ((refl, refl), λ k. refl)
  pump-Still now (suc n) r (s, m) =
      pumped-Still now (λ r' s'. pump env now n r' s') s
        (reader_read memory lossy now log_len (r, m))
        (λ r' s' h. Still-trans s s'.0 (pump env now n r' s').0 h (pump-Still now n r' s'))

  pub pump_log-Still : (now : ℕ) (s : Open env) → Still s.0 (pump_log env now s).0
  unfolding pump_log
  pump_log-Still now ((w, outs), m) =
      if_OpenStill w.decodes (w, outs) _ _ (for_reader w.rtt) ((refl, refl), λ k. refl)
    where
      for_reader : (r : Option RttReader) → Still (w, outs) (pump_reader env now r ((w, outs), m)).0
      for_reader none = ((refl, refl), λ k. refl)
      for_reader (some r) = pump-Still now 8 r ((w, outs), m)

  note_outcome-Same :
      (now : ℕ) (o : SampleOutcome) (w : Worker) → SameWaiting w (note_outcome env now o w).1
  unfolding note_outcome
  note_outcome-Same now o w = if_Same (o.regions_ok == 0 && ltb 0 o.regions_failed) _ _ noted noted
    where
      noted : SameWaiting w (note (carrier_error o.first_error) w)
      noted = note_Same (carrier_error o.first_error) w w (refl, refl)

      if_Same :
          (b : Bool) (r r' : Option Message × Worker)
          → SameWaiting w r.1
          → SameWaiting w r'.1
          → SameWaiting w (if b then r else r').1
      if_Same true r r' h h' = h
      if_Same false r r' h h' = h'

  push_row-Same :
      (time : ℕ) (row : List ℕ) (w : Worker)
      → Given (λ w'. SameWaiting w w') (push_row env time row w)
  unfolding push_row
  push_row-Same time row w = taken_row (Batch.push w.frame time row) refl
    where
      taken_row :
          (frame : Option FrameBuilder)
          → Batch.push w.frame time row ≡ frame
          → Given (λ w'. SameWaiting w w') (push_row env time row w)
      taken_row none e = rw (Given, e) tt
      taken_row (some frame) e = rw (Given, e) (refl, refl)

  pub sample-Same :
      (now started read_us : ℕ) (w : Worker) (m : memory.Memory)
      → Given (λ r. SameWaiting w r.1.0) (sample env now started read_us w m)
  unfolding sample
  sample-Same now started read_us w m =
      let ((row, o), m') = ReadPlan.sample memory w.plan m in
      let w' : Worker = record w {
        stats = record_tick w.stats now read_us o.bytes o.regions_failed;
      } in
      Given-bind (λ x. SameWaiting w x) (λ r. SameWaiting w r.1.0)
        (push_row env _ (map float_bits row) w') _ (push_row-Same _ (map float_bits row) w')
        (λ x h. let same = note_outcome-Same now o x in (same.0 ∙ h.0, same.1 ∙ h.1))
