-- ===== src/Link/Safe/Loop.antt =====
-- crates/studio-core/src/link.rs: the loop of `run` does not panic.
use tuning_tools.Base.{ℕ, suc, arith, Bool, true, false, Option, none, some, List, [], ◌∷◌}
use tuning_tools.Base.Bytes.{to_le_bytes}
use tuning_tools.Message.{Message, Except, ok, err}
use tuning_tools.Wire.{Frame}
use tuning_tools.Wire.Cmd
use tuning_tools.Wire.Feed.{feed_total}
use tuning_tools.Wire.Reader.{slot}
use tuning_tools.Ticker
use tuning_tools.Catalog.{CatalogEntry, entry, request_bits}
use tuning_tools.Session.{SessionCommand}
use tuning_tools.Link.{Worker, Pending, Setting, Failure, Method, send, request, poll_values}
use tuning_tools.Link.Frames.{on_frame, expire}
use tuning_tools.Link.Samples.{flush_frame}
use tuning_tools.Link.Commands.{
  write_payload, Tickers, Turn, write_bits, write_value, is_rate, on_command, is_stop,
  drain_commands, on_frames, on_bytes, when, ask_lease, tick, run_turn, go_on, run_turns, ignore,
  close, ended, run,
}
use tuning_tools.Link.Safe.{
  Aligned, Safe, AlwaysSafe, and_then-Safe, if_AlwaysSafe, send-Safe, request-Safe, subscribe-Safe,
  poll_values-Safe,
}
use tuning_tools.Link.Safe.Frames.{flush_frame-Safe, on_frame-Safe, expire-Safe}

module _ (env : Setting) where
  open env use {World, fl}

  write_bits-Safe :
      (now id k : ℕ) (e : CatalogEntry) (bits : Except Message ℕ)
      → AlwaysSafe (write_bits env now id k e bits)
  unfolding write_bits slot
  write_bits-Safe now id k e (err m) w s a = a
  write_bits-Safe now id k e (ok bits) w s a =
      request-Safe env now Cmd.write (write_payload w.token id e bits) (Pending.write k)
        (omega arith) w s a

  write_value-Safe :
      (now id v k : ℕ) (e : Option CatalogEntry) → AlwaysSafe (write_value env now id v k e)
  unfolding write_value
  write_value-Safe now id v k none w s a = a
  write_value-Safe now id v k (some e) w s a =
      write_bits-Safe now id k e (request_bits fl e v) w s a

  on_command-Safe : (now : ℕ) (c : SessionCommand) → AlwaysSafe (on_command env now c)
  unfolding on_command
  on_command-Safe now SessionCommand.stop w s a = a
  on_command-Safe now (SessionCommand.set_rate hz) w s a =
      if_AlwaysSafe (is_rate env hz) _ _ (λ w s a. subscribe-Safe env now none _ s a) (λ w s a. a) w
        s a
  on_command-Safe now (SessionCommand.set_cell_watches watches) w s a =
      subscribe-Safe env now none _ s a
  on_command-Safe now (SessionCommand.request id v k) w s a =
      write_value-Safe now id v k (entry w.catalog id) w s a
  on_command-Safe now (SessionCommand.discard k) w s a =
      request-Safe env now Cmd.discard (to_le_bytes 4 w.token) (Pending.discard k) (omega arith) w s
        a
  on_command-Safe now (SessionCommand.save k) w s a =
      request-Safe env now Cmd.save (to_le_bytes 4 w.token) (Pending.save k) (omega arith) w s a
  on_command-Safe now (SessionCommand.read spans k) w s a = a
  on_command-Safe now (SessionCommand.set_watches items) w s a = a
  on_command-Safe now (SessionCommand.set_catalog c) w s a = a

  drain_commands-Safe :
      (closed : Bool) (cs : List (ℕ × SessionCommand)) → AlwaysSafe (drain_commands env closed cs)
  unfolding drain_commands
  drain_commands-Safe closed [] w s a = a
  drain_commands-Safe closed ((now, c) ∷ rest) w s a =
      if_AlwaysSafe (is_stop env c) _ _ (λ w s a. a)
        (λ w s a.
          and_then-Safe (on_command env now c (w, s)) _ (on_command-Safe now c w s a)
            (λ u. drain_commands-Safe closed rest))
        w s a

  on_frames-Safe : (clock : ℕ → ℕ) (fs : List Frame) → AlwaysSafe (on_frames env clock fs)
  unfolding on_frames
  on_frames-Safe clock [] w s a = a
  on_frames-Safe clock (f ∷ fs) w s a =
      and_then-Safe (on_frame env (clock 0) f (w, s)) _ (on_frame-Safe env (clock 0) f w s a)
        (λ u. on_frames-Safe (λ n. clock (suc n)) fs)

  on_bytes-Safe :
      (clock : ℕ → ℕ) (bytes : Except Message (List ℕ)) → AlwaysSafe (on_bytes env clock bytes)
  unfolding on_bytes
  on_bytes-Safe clock (err m) w s a = a
  on_bytes-Safe clock (ok bytes) w s a =
      let ((d, fs), e) = feed_total w.decoder bytes in
      rw (e, Safe, on_bytes) (on_frames-Safe clock fs (record w { decoder = d }) s a)

  when-Safe : (b : Bool) (m : Method World (Unit {0})) → AlwaysSafe m → AlwaysSafe (when env b m)
  when-Safe true m h w s a = h w s a
  when-Safe false m h w s a = a

  tick-Safe : (now : ℕ) (t : Tickers) → AlwaysSafe (tick env now t)
  unfolding tick
  tick-Safe now t w s a =
      and_then-Safe (when env (Ticker.poll t.lease_tick now).0 (ask_lease env now) (w, s)) _
        (when-Safe (Ticker.poll t.lease_tick now).0 (ask_lease env now)
          (λ w s a.
            request-Safe env now Cmd.lease (to_le_bytes 4 w.token) Pending.lease (omega arith) w s
              a)
          w s a)
        (λ u w s a.
          and_then-Safe (when env (Ticker.poll t.tune_tick now).0 (poll_values env now) (w, s)) _
            (when-Safe (Ticker.poll t.tune_tick now).0 (poll_values env now)
              (poll_values-Safe env now) w s a)
            (λ u w s a.
              and_then-Safe
                (when env (Ticker.poll t.stats_tick now).0
                  (request env now Cmd.stats [] Pending.stats) (w, s))
                _
                (when-Safe (Ticker.poll t.stats_tick now).0 _
                  (request-Safe env now Cmd.stats [] Pending.stats (omega arith)) w s a)
                (λ u w s a.
                  and_then-Safe (when env (Ticker.poll t.frame_tick now).0 (flush_frame env) (w, s))
                    _
                    (when-Safe (Ticker.poll t.frame_tick now).0 (flush_frame env)
                      (flush_frame-Safe env) w s a)
                    (λ u w s a.
                      and_then-Safe (expire env now (w, s)) _ (expire-Safe env now w s a)
                        (λ u w s a. a)))))

  run_turn-Safe : (turn : Turn) (t : Tickers) (stop : Bool) → AlwaysSafe (run_turn env turn t stop)
  unfolding run_turn
  run_turn-Safe turn t true w s a = a
  run_turn-Safe turn t false w s a =
      and_then-Safe (on_bytes env turn.clock turn.bytes (w, s)) _
        (on_bytes-Safe turn.clock turn.bytes w s a)
        (λ u w s a.
          and_then-Safe (tick env turn.now t (w, s)) _ (tick-Safe turn.now t w s a) (λ u w s a. a))

  go_on-Safe :
      (more : Option Tickers) (rest : Tickers → Method World Bool)
      → ((t : Tickers) → AlwaysSafe (rest t))
      → AlwaysSafe (go_on env more rest)
  go_on-Safe none rest h w s a = a
  go_on-Safe (some t) rest h w s a = h t w s a

  run_turns-Safe : (turns : List Turn) (t : Tickers) → AlwaysSafe (run_turns env turns t)
  unfolding run_turns
  run_turns-Safe [] t w s a = a
  run_turns-Safe (turn ∷ turns) t w s a =
      and_then-Safe (drain_commands env turn.closed turn.commands (w, s)) _
        (drain_commands-Safe turn.closed turn.commands w s a)
        (λ stop w s a.
          and_then-Safe (run_turn env turn t stop (w, s)) _ (run_turn-Safe turn t stop w s a)
            (λ more. go_on-Safe more (λ t'. run_turns env turns t') (run_turns-Safe turns)))

  ignore-Safe :
      {A : Type 0} (r : Except Failure A × (Worker × World)) → Safe r → Safe (ignore env r)
  ignore-Safe (ok a, s) h = h
  ignore-Safe (err (Failure.fails m), s) h = h
  ignore-Safe (err Failure.panics, s) h = absurd h

  close-Safe : (failure : Option Message) → AlwaysSafe (close env failure)
  unfolding close
  close-Safe failure w s a =
      and_then-Safe (ignore env (send env Cmd.watch (0 ∷ 0 ∷ 0 ∷ []) (w, s))) _
        (ignore-Safe (send env Cmd.watch (0 ∷ 0 ∷ 0 ∷ []) (w, s))
          (send-Safe env Cmd.watch (0 ∷ 0 ∷ 0 ∷ []) (omega arith) w s a))
        (λ u w s a.
          and_then-Safe (ignore env (send env Cmd.release (to_le_bytes 4 w.token) (w, s))) _
            (ignore-Safe (send env Cmd.release (to_le_bytes 4 w.token) (w, s))
              (send-Safe env Cmd.release (to_le_bytes 4 w.token) (omega arith) w s a))
            (λ u w s a.
              and_then-Safe (flush_frame env (w, s)) _ (flush_frame-Safe env w s a) (λ u w s a. a)))

  ended-Safe : (r : Except Failure Bool × (Worker × World)) → Safe r → Safe (ended env r)
  ended-Safe (ok false, s) h = h
  ended-Safe (ok true, (w, s)) h = close-Safe none w s h
  ended-Safe (err (Failure.fails m), (w, s)) h = close-Safe (some m) w s h
  ended-Safe (err Failure.panics, s) h = absurd h

  -- Whatever it is told, and whatever the firmware sends, a worker whose frame has a column for each
  -- active subscription runs without a panic, and its frame keeps a column for each.
  pub run-Safe :
      (turns : List Turn) (t : Tickers) (w : Worker) (s : World)
      → Aligned w
      → Safe (run env turns t (w, s))
  unfolding run
  run-Safe turns t w s a = ended-Safe (run_turns env turns t (w, s)) (run_turns-Safe turns t w s a)
