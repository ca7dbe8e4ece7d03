-- ===== src/Link/Frames.antt =====
-- crates/studio-core/src/link.rs: what the worker does with a frame of the firmware, and with the requests
-- that get none in time.
use tuning_tools.Base.{
  ℕ, ◌-◌, ◌*◌, min, ◌&&◌, Option, none, some, List, [], ◌∷◌, map, ltb, ◌==◌, if◌then◌else◌,
}
use tuning_tools.Base.Dict.{lookup, remove}
use tuning_tools.Message.{Message, Except, ok, err}
use tuning_tools.Wire.{Frame}
use tuning_tools.Wire.Cmd
use tuning_tools.Wire.Status.{status_budget}
use tuning_tools.Wire.Reader.{read_u32}
use tuning_tools.Batch.{FrameBuilder, SampleBatch}
use tuning_tools.Batch
use tuning_tools.Stats.{restart_window}
use tuning_tools.Link.Samples.{on_values, on_sample, flush_frame, report_stats}
use tuning_tools.Link.{
  Worker, Pending, Subscription, Setting, Failure, Method, ◌>>◌, and_then, pure, modify, tell,
  reply_timeout, save_timeout, max_period_ms, subscribe,
}

-- The status and the body of a reply; an empty one counts as refused.
abbrev pub split_reply : List ℕ → ℕ × List ℕ
split_reply [] = (1, [])
split_reply (status ∷ body) = (status, body)

abbrev pub refusal : ℕ → Option Message
refusal status = if status == 0 then none else some (Message.refused status)

abbrev pub answer : ℕ → Except Message (Unit {0})
answer status = if status == 0 then ok tt else err (Message.refused status)

-- A refusal is kept for the status; a success leaves the last error.
abbrev pub note_refusal : ℕ → Worker → Worker
note_refusal status w =
    if status == 0 then w else record w { last_error = some (Message.refused status) }

abbrev pub limit_of : Pending → ℕ
limit_of (Pending.save k) = save_timeout
limit_of p = reply_timeout

module _ (env : Setting) where
  open env use {World, samples, event, frame_taken, reply, fl, ops, time_of}

  abbrev pub note_dropped : Option (ℕ × List ℕ) → Worker → Worker
  note_dropped none w = w
  note_dropped (some (dropped, rest)) w = record w { device_dropped = dropped }

  abbrev pub dropped_after : Option (ℕ × List ℕ) → Worker → Worker
  dropped_after none w = w
  dropped_after (some (sent, rest)) w = note_dropped (read_u32 rest) w

  abbrev pub dropped_in : List ℕ → Worker → Worker
  dropped_in body w = dropped_after (read_u32 body) w

  -- A subscription that the firmware took.
  abbrev pub activate : List Subscription → ℕ → Worker → Worker
  activate subs period w = record w {
    frame = Batch.reset w.frame (map (λ x. x.watch_id) subs);
    active = subs;
    period_ms = period;
    last_sample_seq = none;
    link_stats = restart_window w.link_stats;
  }

  -- An error is noted, and a panic goes on.
  abbrev pub note_error :
      Except Failure (Unit {0}) × (Worker × World) → Except Failure (Unit {0}) × (Worker × World)
  note_error (ok u, s) = (ok u, s)
  note_error (err (Failure.fails m), (w, s)) = (ok tt, (record w { last_error = some m }, s))
  note_error (err Failure.panics, s) = (err Failure.panics, s)

  unfoldable pub subscribe_slower : ℕ → ℕ → Method World (Unit {0})
  subscribe_slower now period (w, s) =
      let slower = min (period * 2) max_period_ms in
      note_error (
        subscribe env now (some slower) (record w { last_error = some (Message.slower slower) }, s))

  unfoldable pub on_reply : ℕ → Pending → ℕ → List ℕ → Method World (Unit {0})
  unfolding flush_frame report_stats on_values subscribe_slower
  on_reply now (Pending.write k) status body = tell (λ s. reply s k (answer status))
  on_reply now (Pending.discard k) status body = tell (λ s. reply s k (answer status))
  on_reply now (Pending.save k) status body = tell (λ s. reply s k (answer status))
  on_reply now Pending.lease status body = modify (note_refusal status)
  on_reply now Pending.read status body =
      modify (λ w. if status == 0 then on_values env body w else note_refusal status w)
  on_reply now Pending.stats status body =
      if status == 0
      then (do modify (dropped_in body); report_stats env)
      else modify (note_refusal status)
  on_reply now (Pending.watch subs period) status body =
      if status == 0
      then (do flush_frame env; modify (activate subs period))
      else if status == status_budget && ltb period max_period_ms
      then subscribe_slower now period
      else modify (note_refusal status)

  unfoldable pub on_pending : ℕ → ℕ → Option (Pending × ℕ) → List ℕ → Method World (Unit {0})
  unfolding on_reply
  on_pending now seq none payload = pure tt
  on_pending now seq (some (p, sent)) payload = do
    modify (λ w. record w { pending = remove seq w.pending })
    on_reply now p (split_reply payload).0 (split_reply payload).1

  unfoldable pub on_frame : ℕ → Frame → Method World (Unit {0})
  unfolding on_sample on_pending
  on_frame now f (w, s) =
      if f.cmd == Cmd.sample
      then on_sample env now f.seq f.payload (w, s)
      else on_pending now f.seq (lookup f.seq w.pending) f.payload (w, s)

  -- What becomes of a request that was not answered in time.
  unfoldable pub on_late : Pending → Method World (Unit {0})
  on_late (Pending.write k) = tell (λ s. reply s k (err Message.no_answer))
  on_late (Pending.discard k) = tell (λ s. reply s k (err Message.no_answer))
  on_late (Pending.save k) = tell (λ s. reply s k (err Message.no_answer))
  on_late Pending.lease = modify (λ w. record w { last_error = some Message.lease_not_renewed })
  on_late Pending.read = pure tt
  on_late Pending.stats = pure tt
  on_late (Pending.watch subs period) = pure tt

  unfoldable pub late_seqs : ℕ → List (ℕ × (Pending × ℕ)) → List ℕ
  late_seqs now [] = []
  late_seqs now ((seq, (p, sent)) ∷ rest) =
      let others = late_seqs now rest in
      if ltb (limit_of p) (now - sent) then seq ∷ others else others

  unfoldable pub on_expired : ℕ → Option (Pending × ℕ) → Method World (Unit {0})
  unfolding on_late
  on_expired seq none = pure tt
  on_expired seq (some (p, sent)) = do
    modify (λ w. record w { pending = remove seq w.pending })
    on_late p

  unfoldable pub expire_all : List ℕ → Method World (Unit {0})
  unfolding on_expired
  expire_all [] s = (ok tt, s)
  expire_all (seq ∷ seqs) (w, s) =
      and_then (on_expired seq (lookup seq w.pending) (w, s)) (λ _. expire_all seqs)

  -- The order of the late requests is that of the map's list; the source's is any.
  unfoldable pub expire : ℕ → Method World (Unit {0})
  unfolding late_seqs expire_all
  expire now (w, s) = expire_all (late_seqs now w.pending) (w, s)
