-- ===== src/Probe/Safe.antt =====
-- crates/studio-core/src/session.rs: no operation of the worker panics, as long as the frame has a column
-- for each watched value, its rows are whole, the rate is in range, and no read asks for more bytes than a
-- buffer can have.
mod Turn
pub mod Loop
use tuning_tools.Base.{
  All, All-append, ◌<◌, ℕ, ◌+◌, ◌≡◌, ◌≢◌, refl, sym, ap, ◌∙◌, arith, Bool, true, false, Option,
  none, some, List, [], ◌∷◌, ◌++◌, map, length, length-map, if◌then◌else◌, ◌==◌, Bool-cases, inl,
  inr,
}
use tuning_tools.Message.{Message, Except, ok, err}
use tuning_tools.Batch
use tuning_tools.Batch.{FrameBuilder, SampleBatch, take_pending}
use tuning_tools.Batch.Builder.{HoldsRows, reset-HoldsRows, take_pending-HoldsRows, Encodes}
use tuning_tools.ReadPlan
use tuning_tools.ReadPlan.{ReadItem, ReadPlan}
use tuning_tools.Ticker
use tuning_tools.Ticker.{Ticker}
use tuning_tools.Session.{SessionEvent, SessionCommand}
use tuning_tools.Probe.Requests.{alloc_limit}
use tuning_tools.Probe.{
  Worker, TuneRequest, Output, Setting, Outcome, done, panics, runs_on, ◌>>=◌, State, count_frame,
  started, deliver, flush_frame, sampler_for, restart_sampler, watching, set_watches, set_rate,
  tuner_of, queue, apply, is_stop, stopped, drain_commands,
}

-- A result that holds, where there is one; there is no panic.
abbrev pub Safe : {A : Type 0} → (A → Type 0) → Outcome A → Type 0
Safe P (done a) = P a
Safe P panics = ⊥
Safe P runs_on = Unit

pub Safe-bind :
    {A B : Type 0} (P : A → Type 0) (Q : B → Type 0) (r : Outcome A) (f : A → Outcome B)
    → Safe P r
    → ((a : A) → P a → Safe Q (f a))
    → Safe Q (r >>= f)
Safe-bind P Q (done a) f h k = k a h
Safe-bind P Q panics f h k = absurd h
Safe-bind P Q runs_on f h k = tt

pub if_Safe :
    {A : Type 0} (P : A → Type 0) (b : Bool) (r r' : Outcome A)
    → Safe P r
    → Safe P r'
    → Safe P (if b then r else r')
if_Safe P true r r' h h' = h
if_Safe P false r r' h h' = h'

-- The frame's rows are whole, and as wide as a row of the plan.
unfoldable pub Rows : FrameBuilder → ReadPlan → Type 0
Rows frame plan = HoldsRows frame × (length frame.ids ≡ length plan.items)

-- No region is longer than a buffer can be.
abbrev pub RegionsFit : List (ℕ × ℕ) → Type 0
RegionsFit = All (λ r. r.1 < alloc_limit)

abbrev pub CommandFits : SessionCommand → Type 0
CommandFits (SessionCommand.read regions k) = RegionsFit regions
CommandFits command = Unit

abbrev pub ReadsFit : List (List (ℕ × ℕ) × ℕ) → Type 0
ReadsFit = All (λ r. RegionsFit r.0)

module _ (env : Setting) where
  open env use {memory, fl, clamp, period_of, taken, period_pos}

  -- The rate is one that `clamp` gives for a number.
  unfoldable pub InRange : ℕ → Type 0
  InRange rate = (hz : ℕ) × (fl.is_nan hz ≡ false) × (rate ≡ clamp hz)

  abbrev pub IsSound : Worker → Type 0
  IsSound w = Rows w.frame w.plan × (InRange w.rate_hz × ReadsFit w.reads)

  abbrev pub Sound : State → Type 0
  Sound s = IsSound s.0

  deliver-Safe :
      (batch : Option SampleBatch) (s : State)
      → Encodes batch
      → Sound s
      → Safe Sound (deliver env batch s)
  unfolding deliver
  deliver-Safe none s e h = h
  deliver-Safe (some batch) (w, outs) (bytes, e) h = rw (Safe, e) h

  pub flush_frame-Safe : (s : State) → Sound s → Safe Sound (flush_frame env s)
  unfolding flush_frame Rows
  flush_frame-Safe (w, outs) ((rows, wide), range) =
      let (encodes, rows', ids) = take_pending-HoldsRows w.frame rows in
      deliver-Safe (take_pending w.frame).0 (record w { frame = (take_pending w.frame).1 }, outs)
        encodes ((rows', ap length ids ∙ wide), range)

  ticker-Safe :
      (at rate : ℕ)
      → InRange rate
      → Safe
          (λ t. Unit {0})
          (started (period_of rate) >>= λ period.
            started (Ticker.new at period) >>= λ t. done (some t))
  unfolding InRange Ticker.new
  ticker-Safe at rate (hz, number, e) =
      let (period, given, positive) = period_pos hz number in
      let some_time : (period == 0) ≡ false = ground arith in rw (e, given, some_time) tt

  sampler_for-Safe : (at : ℕ) (w : Worker) → IsSound w → Safe (λ t. Unit {0}) (sampler_for env at w)
  unfolding sampler_for
  sampler_for-Safe at w (rows, range) =
      if_Safe (λ t. Unit {0}) (length w.plan.items == 0) _ _ tt (ticker-Safe at w.rate_hz range.0)

  restart_sampler-Safe : (at : ℕ) (w : Worker) → IsSound w → Safe IsSound (restart_sampler env at w)
  unfolding restart_sampler
  restart_sampler-Safe at w h =
      Safe-bind (λ t. Unit {0}) IsSound (sampler_for env at w) _ (sampler_for-Safe at w h)
        (λ t u. h)

  watching-IsSound :
      (items : List ReadItem) (w : Worker) → IsSound w → IsSound (watching env items w)
  unfolding Rows Batch.reset ReadPlan.new ReadPlan.with_limits
  watching-IsSound items w (rows, range) =
      ((reset-HoldsRows w.frame (map (λ i. i.id) items), length-map items (λ i. i.id)), range)

  set_watches-Safe :
      (at : ℕ) (items : List ReadItem) (s : State)
      → Sound s
      → Safe Sound (set_watches env at items s)
  unfolding set_watches
  set_watches-Safe at items s h =
      Safe-bind Sound Sound (flush_frame env s) _ (flush_frame-Safe s h) (λ s' h'.
        Safe-bind IsSound Sound (restart_sampler env at (watching env items s'.0)) _
          (restart_sampler-Safe at (watching env items s'.0) (watching-IsSound items s'.0 h'))
          (λ w h''. h''))

  set_rate-Safe : (at hz : ℕ) (s : State) → Sound s → Safe Sound (set_rate env at hz s)
  unfolding set_rate InRange
  set_rate-Safe at hz (w, outs) (rows, range) = elim (Bool-cases (fl.is_finite hz)) [
    | inl finite ↦
        let ranged : Worker = record w { rate_hz = clamp hz } in
        rw finite (
          Safe-bind IsSound Sound (restart_sampler env at ranged) _
            (restart_sampler-Safe at ranged (rows, ((hz, fl.finite_nan hz finite, refl), range.1)))
            (λ w' h. h))
    | inr other ↦ rw other (rows, range)
  ]

  apply-Safe :
      (at : ℕ) (command : SessionCommand) (s : State)
      → CommandFits command
      → Sound s
      → Safe Sound (apply env at command s)
  unfolding apply
  apply-Safe at (SessionCommand.set_watches items) s fits h = set_watches-Safe at items s h
  apply-Safe at (SessionCommand.set_rate hz) s fits h = set_rate-Safe at hz s h
  apply-Safe at (SessionCommand.set_catalog c) s fits h = h
  apply-Safe at (SessionCommand.request id v k) s fits h = h
  apply-Safe at (SessionCommand.discard k) s fits h = h
  apply-Safe at (SessionCommand.save k) s fits h = h
  apply-Safe at (SessionCommand.read regions k) (w, outs) fits (rows, (range, reads)) =
      (rows, (range, All-append (λ r. RegionsFit r.0) w.reads ((regions, k) ∷ []) reads (fits, tt)))
  apply-Safe at (SessionCommand.set_cell_watches cells) s fits h = h
  apply-Safe at SessionCommand.stop s fits h = h

  pub drain_commands-Safe :
      (at : ℕ) (commands : List SessionCommand) (hung_up : Bool) (s : State)
      → All CommandFits commands
      → Sound s
      → Safe (λ r. Sound r.1) (drain_commands env at commands hung_up s)
  unfolding drain_commands
  drain_commands-Safe at [] true s fits h = h
  drain_commands-Safe at [] false s fits h = h
  drain_commands-Safe at (command ∷ commands) hung_up s fits h =
      if_Safe (λ r. Sound r.1) (is_stop command) _ _ h
        (Safe-bind Sound (λ r. Sound r.1) (apply env at command s) _
          (apply-Safe at command s fits.0 h)
          (λ s' h'. drain_commands-Safe at commands hung_up s' fits.1 h'))
