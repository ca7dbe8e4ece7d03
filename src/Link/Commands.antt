-- ===== src/Link/Commands.antt =====
-- crates/studio-core/src/link.rs: what the worker is told, and its loop. A turn of the loop is what the
-- channel, the stream and the clock give in it.
use tuning_tools.Base.{
  ℕ, suc, Bool, true, false, ◌&&◌, Option, none, some, List, [], ◌∷◌, ◌++◌, if◌then◌else◌,
}
use tuning_tools.Base.Bytes.{to_le_bytes}
use tuning_tools.Message.{Message, Except, ok, err}
use tuning_tools.Wire.{Frame, feed}
use tuning_tools.Wire.Cmd
use tuning_tools.Wire.Reader.{slot}
use tuning_tools.Ticker
use tuning_tools.Ticker.{Ticker}
use tuning_tools.Catalog.{CatalogEntry, entry, request_bits, tag}
use tuning_tools.Session.{SessionCommand, SessionEvent, LinkState}
use tuning_tools.Link.{
  Worker, Pending, Setting, Failure, Method, ◌>>=◌, ◌>>◌, pure, modify, tell, send, request,
  subscribe, poll_values,
}
use tuning_tools.Link.Frames.{on_frame, expire}
use tuning_tools.Link.Samples.{flush_frame}

abbrev pub write_payload : ℕ → ℕ → CatalogEntry → ℕ → List ℕ
write_payload token id e bits = to_le_bytes 4 token ++ (to_le_bytes 4 id ++ slot (tag e.kind) bits)

pub record Tickers : Type 0 where
  pub lease_tick : Ticker
  pub tune_tick : Ticker
  pub frame_tick : Ticker
  pub stats_tick : Ticker

-- The commands that wait, each with the instant it is taken at, and whether the channel is closed behind
-- them; what the stream gives; the instants its frames are handled at; and the one of the tickers.
pub record Turn : Type 0 where
  pub commands : List (ℕ × SessionCommand)
  pub closed : Bool
  pub bytes : Except Message (List ℕ)
  pub clock : ℕ → ℕ
  pub now : ℕ

module _ (env : Setting) where
  open env use {World, event, reply, fl, ops}

  unfoldable pub write_bits : ℕ → ℕ → ℕ → CatalogEntry → Except Message ℕ → Method World (Unit {0})
  write_bits now id k e (err m) = tell (λ s. reply s k (err m))
  write_bits now id k e (ok bits) =
      λ (w, s). request env now Cmd.write (write_payload w.token id e bits) (Pending.write k) (w, s)

  unfoldable pub write_value : ℕ → ℕ → ℕ → ℕ → Option CatalogEntry → Method World (Unit {0})
  unfolding write_bits
  write_value now id v k none = tell (λ s. reply s k (err (Message.unknown_value id)))
  write_value now id v k (some e) = write_bits now id k e (request_bits fl e v)

  abbrev pub is_rate : ℕ → Bool
  is_rate hz = fl.is_finite hz && ops.is_positive hz

  -- A command at the instant `now`; `stop` ends the loop of `drain_commands`.
  unfoldable pub on_command : ℕ → SessionCommand → Method World (Unit {0})
  unfolding write_value
  on_command now SessionCommand.stop = pure tt
  on_command now (SessionCommand.set_rate hz) =
      if is_rate hz
      then (do modify (λ w. record w { rate_hz = hz }); subscribe env now none)
      else pure tt
  on_command now (SessionCommand.set_cell_watches watches) = do
    modify (λ w. record w { wanted = watches })
    subscribe env now none
  on_command now (SessionCommand.request id v k) =
      λ (w, s). write_value now id v k (entry w.catalog id) (w, s)
  on_command now (SessionCommand.discard k) =
      λ (w, s). request env now Cmd.discard (to_le_bytes 4 w.token) (Pending.discard k) (w, s)
  on_command now (SessionCommand.save k) =
      λ (w, s). request env now Cmd.save (to_le_bytes 4 w.token) (Pending.save k) (w, s)
  on_command now (SessionCommand.read spans k) = tell (λ s. reply s k (err Message.needs_probe))
  on_command now (SessionCommand.set_watches items) = pure tt
  on_command now (SessionCommand.set_catalog c) = pure tt

  abbrev pub is_stop : SessionCommand → Bool
  is_stop SessionCommand.stop = true
  is_stop c = false

  -- Whether the session should stop.
  unfoldable pub drain_commands : Bool → List (ℕ × SessionCommand) → Method World Bool
  unfolding on_command
  drain_commands closed [] = pure closed
  drain_commands closed ((now, c) ∷ rest) =
      let others = drain_commands closed rest in
      if is_stop c then pure true else on_command now c >>= λ u. others

  -- The frames of one read, each at its instant.
  unfoldable pub on_frames : (ℕ → ℕ) → List Frame → Method World (Unit {0})
  unfolding on_frame
  on_frames clock [] = pure tt
  on_frames clock (f ∷ fs) = do on_frame env (clock 0) f; on_frames (λ n. clock (suc n)) fs

  -- `feed` with the fuel that it has.
  unfoldable pub on_bytes : (ℕ → ℕ) → Except Message (List ℕ) → Method World (Unit {0})
  unfolding on_frames
  on_bytes clock (err m) s = (err (Failure.fails m), s)
  on_bytes clock (ok bytes) (w, s) = elim (feed w.decoder bytes) [
    | none ↦ (err Failure.panics, (w, s))
    | some (d, frames) ↦ on_frames clock frames (record w { decoder = d }, s)
  ]

  abbrev pub when : Bool → Method World (Unit {0}) → Method World (Unit {0})
  when true m = m
  when false m = pure tt

  abbrev pub ask_lease : ℕ → Method World (Unit {0})
  ask_lease now (w, s) = request env now Cmd.lease (to_le_bytes 4 w.token) Pending.lease (w, s)

  -- The part of a turn behind the frames.
  unfoldable pub tick : ℕ → Tickers → Method World Tickers
  tick now t =
      let (lease_due, lease') = Ticker.poll t.lease_tick now in
      let (tune_due, tune') = Ticker.poll t.tune_tick now in
      let (stats_due, stats') = Ticker.poll t.stats_tick now in
      let (frame_due, frame') = Ticker.poll t.frame_tick now in
      (do
        when lease_due (ask_lease now)
        when tune_due (poll_values env now)
        when stats_due (request env now Cmd.stats [] Pending.stats)
        when frame_due (flush_frame env)
        expire env now
        pure (record {
          lease_tick = lease';
          tune_tick = tune';
          frame_tick = frame';
          stats_tick = stats';
        }))

  unfoldable pub run_turn : Turn → Tickers → Bool → Method World (Option Tickers)
  unfolding on_bytes tick
  run_turn turn t true = pure none
  run_turn turn t false = do on_bytes turn.clock turn.bytes; t' ← tick turn.now t; pure (some t')

  abbrev pub go_on : Option Tickers → (Tickers → Method World Bool) → Method World Bool
  go_on none rest = pure true
  go_on (some t) rest = rest t

  -- The loop of `run` over the turns so far: whether it has been stopped.
  unfoldable pub run_turns : List Turn → Tickers → Method World Bool
  unfolding drain_commands run_turn
  run_turns [] t = pure false
  run_turns (turn ∷ turns) t = do
    stop ← drain_commands turn.closed turn.commands
    more ← run_turn turn t stop
    go_on more (λ t'. run_turns turns t')

  -- `let _ =`: an error is dropped, and a panic is not.
  abbrev pub ignore :
      {A : Type 0}
      → Except Failure A × (Worker × World)
      → Except Failure (Unit {0}) × (Worker × World)
  ignore (ok a, s) = (ok tt, s)
  ignore (err (Failure.fails m), s) = (ok tt, s)
  ignore (err Failure.panics, s) = (err Failure.panics, s)

  abbrev pub close_one : Pending → World → World
  close_one (Pending.write k) s = reply s k (err Message.link_closed)
  close_one (Pending.discard k) s = reply s k (err Message.link_closed)
  close_one (Pending.save k) s = reply s k (err Message.link_closed)
  close_one p s = s

  unfoldable pub close_pending : List (ℕ × (Pending × ℕ)) → World → World
  close_pending [] s = s
  close_pending ((seq, (p, sent)) ∷ rest) s = close_pending rest (close_one p s)

  abbrev pub end_state : Option Message → LinkState
  end_state none = LinkState.disconnected
  end_state (some m) = LinkState.failed

  -- What `run` does behind its loop.
  unfoldable pub close : Option Message → Method World (Unit {0})
  unfolding close_pending
  close failure = do
    λ s. ignore (send env Cmd.watch (0 ∷ 0 ∷ 0 ∷ []) s)
    λ (w, s). ignore (send env Cmd.release (to_le_bytes 4 w.token) (w, s))
    flush_frame env
    λ (w, s). (
      ok tt,
      (
        record w { pending = [] },
        event (close_pending w.pending s) (SessionEvent.status (end_state failure) failure),
      ),
    )

  abbrev pub ended :
      Except Failure Bool × (Worker × World) → Except Failure (Unit {0}) × (Worker × World)
  ended (ok false, s) = (ok tt, s)
  ended (ok true, s) = close none s
  ended (err (Failure.fails m), s) = close (some m) s
  ended (err Failure.panics, s) = (err Failure.panics, s)

  -- `run` over the turns so far.
  unfoldable pub run : List Turn → Tickers → Method World (Unit {0})
  unfolding run_turns close
  run turns t s = ended (run_turns turns t s)
