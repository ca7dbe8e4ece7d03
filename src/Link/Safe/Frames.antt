-- ===== src/Link/Safe/Frames.antt =====
-- crates/studio-core/src/link.rs: no frame of the firmware makes the worker panic.
use tuning_tools.Base.{
  ℕ, suc, ◌≡◌, refl, sym, ap, ◌∙◌, Bool, true, false, Option, none, some, List, [], ◌∷◌, map,
  length, length-map, ltb, ◌==◌, ◌&&◌,
}
use tuning_tools.Base.Dict.{lookup}
use tuning_tools.Message.{Except, ok, err}
use tuning_tools.Wire.{Frame}
use tuning_tools.Wire.Cmd
use tuning_tools.Wire.Reader.{read_u8, read_u32, read_u64}
use tuning_tools.Wire.Status.{status_budget}
use tuning_tools.Batch
use tuning_tools.Batch.{SampleBatch}
use tuning_tools.Batch.Builder.{Encodes, reset-HoldsRows, push-HoldsRows, take_pending-HoldsRows}
use tuning_tools.Link.{Worker, Pending, Subscription, Setting, Failure, ◌>>◌, modify, max_period_ms}
use tuning_tools.Link.Frames.{
  note_error, note_refusal, subscribe_slower, on_reply, on_pending, on_frame, on_late, on_expired,
  expire_all, expire, late_seqs, split_reply, dropped_in, note_dropped, dropped_after, activate,
}
use tuning_tools.Link.Samples.{
  read_row, push_row, take_sample, on_sample, on_count, on_time, read_values, deliver, flush_frame,
  report_stats, fits_active, on_values, count_frame,
}
use tuning_tools.Catalog.{decode}
use tuning_tools.Link.Safe.{
  Columns, Aligned, if_Safe, if_AlwaysSafe, if_Aligned, Safe, AlwaysSafe, and_then-Safe,
  subscribe-Safe,
}

module _ (env : Setting) where
  open env use {World, fl, time_of}

  length-read_row :
      (xs : List Subscription) (bytes : List ℕ) → length (read_row env xs bytes) ≡ length xs
  unfolding read_row
  length-read_row [] bytes = refl
  length-read_row (x ∷ xs) bytes =
      elim (read_u32 bytes)
        as (λ t.
          length (elim t [
            | none ↦ decode fl x.kind 0 ∷ read_row env xs bytes
            | some (bits, rest) ↦ decode fl x.kind bits ∷ read_row env xs rest
          ])
          ≡ suc (length xs)) [
            | none ↦ ap suc (length-read_row xs bytes)
            | some t ↦ ap suc (length-read_row xs t.1)
          ]

  push_row-Safe :
      (time : ℕ) (row : List ℕ) (w : Worker) (s : World)
      → Aligned w
      → length row ≡ length w.active
      → Safe (push_row env time row (w, s))
  unfolding push_row Columns
  push_row-Safe time row w s (rows, ids) h =
      let wide =
        h ∙ sym (length-map w.active (λ x. x.watch_id)) ∙ ap (λ (l : List ℕ). length l) (sym ids) in
      let (frame, e, rows', same) = push-HoldsRows w.frame time row rows wide in
      rw (e, Safe, push_row) (rows', same ∙ ids)

  take_sample-Safe :
      (now seq device_us : ℕ) (words : List ℕ) (len : ℕ)
      → AlwaysSafe (take_sample env now seq device_us words len)
  unfolding take_sample
  take_sample-Safe now seq device_us words len w s a =
      and_then-Safe _ _
        (push_row-Safe _ (read_row env w.active words) _ s a (length-read_row w.active words))
        (λ u w s a. a)

  on_count-Safe :
      (now seq : ℕ) (payload : List ℕ) (us : ℕ) (t : Option (ℕ × List ℕ))
      → AlwaysSafe (on_count env now seq payload us t)
  unfolding on_count
  on_count-Safe now seq payload us none w s a = a
  on_count-Safe now seq payload us (some (count, words)) w s a =
      if_Safe (fits_active env count words w.active) _ _
        (take_sample-Safe now seq us words (length payload) w s a) a

  on_time-Safe :
      (now seq : ℕ) (payload : List ℕ) (t : Option (ℕ × List ℕ))
      → AlwaysSafe (on_time env now seq payload t)
  unfolding on_time
  on_time-Safe now seq payload none w s a = a
  on_time-Safe now seq payload (some (us, rest)) w s a =
      on_count-Safe now seq payload us (read_u8 rest) w s a

  deliver-Safe : (batch : Option SampleBatch) → Encodes batch → AlwaysSafe (deliver env batch)
  unfolding deliver
  deliver-Safe none h w s a = a
  deliver-Safe (some batch) (bytes, e) w s a =
      rw (e, Safe, deliver) (counted (env.frame_taken (env.samples s batch) bytes).0)
    where
      counted : (b : Bool) → Aligned (count_frame env b w)
      counted true = a
      counted false = a

  pub flush_frame-Safe : AlwaysSafe (flush_frame env)
  unfolding flush_frame Columns
  flush_frame-Safe w s (rows, ids) =
      let (codes, rows', same) = take_pending-HoldsRows w.frame rows in
      deliver-Safe (Batch.take_pending w.frame).0 codes
        (record w { frame = (Batch.take_pending w.frame).1 }) s (rows', same ∙ ids)

  note_refusal-Aligned : (status : ℕ) (w : Worker) → Aligned w → Aligned (note_refusal status w)
  note_refusal-Aligned status w a = if_Aligned (status == 0) _ _ a a

  note_error-Safe :
      (r : Except Failure (Unit {0}) × (Worker × World)) → Safe r → Safe (note_error env r)
  note_error-Safe (ok u, s) h = h
  note_error-Safe (err (Failure.fails m), s) h = h
  note_error-Safe (err Failure.panics, s) h = absurd h

  slower-Safe : (now period : ℕ) → AlwaysSafe (subscribe_slower env now period)
  unfolding subscribe_slower
  slower-Safe now period w s a = note_error-Safe _ (subscribe-Safe env now _ _ s a)

  on_values-Aligned : (body : List ℕ) (w : Worker) → Aligned w → Aligned (on_values env body w)
  unfolding on_values
  on_values-Aligned body w a =
      elim (read_u8 body)
        as (λ t. Aligned (elim t [
          | none ↦ w
          | some (count, rest) ↦ record w { values = read_values env w.catalog count rest w.values }
        ])) [ none ↦ a | some t ↦ a ]

  dropped_after-Aligned :
      (t : Option (ℕ × List ℕ)) (w : Worker) → Aligned w → Aligned (dropped_after env t w)
  dropped_after-Aligned none w a = a
  dropped_after-Aligned (some (sent, rest)) w a = note (read_u32 rest)
    where
      note : (t : Option (ℕ × List ℕ)) → Aligned (note_dropped env t w)
      note none = a
      note (some t) = a

  dropped_in-Aligned : (body : List ℕ) (w : Worker) → Aligned w → Aligned (dropped_in env body w)
  dropped_in-Aligned body w a = dropped_after-Aligned (read_u32 body) w a

  activate-Safe :
      (subs : List Subscription) (period : ℕ)
      → AlwaysSafe (flush_frame env >> modify (activate env subs period))
  unfolding Columns Batch.reset
  activate-Safe subs period w s a =
      and_then-Safe (flush_frame env (w, s)) _ (flush_frame-Safe w s a)
        (λ u w s a. (reset-HoldsRows w.frame (map (λ x. x.watch_id) subs), refl))

  on_reply-Safe :
      (now : ℕ) (p : Pending) (status : ℕ) (body : List ℕ)
      → AlwaysSafe (on_reply env now p status body)
  unfolding on_reply report_stats Columns
  on_reply-Safe now (Pending.write k) status body w s a = a
  on_reply-Safe now (Pending.discard k) status body w s a = a
  on_reply-Safe now (Pending.save k) status body w s a = a
  on_reply-Safe now Pending.lease status body w s a = note_refusal-Aligned status w a
  on_reply-Safe now Pending.read status body w s a =
      if_Aligned (status == 0) _ _ (on_values-Aligned body w a) (note_refusal-Aligned status w a)
  on_reply-Safe now Pending.stats status body w s a =
      if_AlwaysSafe (status == 0) _ _ (λ w s a. dropped_in-Aligned body w a)
        (λ w s a. note_refusal-Aligned status w a) w s a
  on_reply-Safe now (Pending.watch subs period) status body w s a =
      if_AlwaysSafe (status == 0) _ _ (activate-Safe subs period)
        (if_AlwaysSafe (status == status_budget && ltb period max_period_ms) _ _
          (slower-Safe now period) (λ w s a. note_refusal-Aligned status w a))
        w s a

  on_pending-Safe :
      (now seq : ℕ) (p : Option (Pending × ℕ)) (payload : List ℕ)
      → AlwaysSafe (on_pending env now seq p payload)
  unfolding on_pending
  on_pending-Safe now seq none payload w s a = a
  on_pending-Safe now seq (some (p, sent)) payload w s a =
      on_reply-Safe now p (split_reply payload).0 (split_reply payload).1 _ s a

  pub on_frame-Safe : (now : ℕ) (f : Frame) → AlwaysSafe (on_frame env now f)
  unfolding on_frame on_sample
  on_frame-Safe now f w s a =
      if_Safe (f.cmd == Cmd.sample) _ _
        (on_time-Safe now f.seq f.payload (read_u64 f.payload) w s a)
        (on_pending-Safe now f.seq (lookup f.seq w.pending) f.payload w s a)

  on_late-Safe : (p : Pending) → AlwaysSafe (on_late env p)
  unfolding on_late
  on_late-Safe (Pending.write k) w s a = a
  on_late-Safe (Pending.discard k) w s a = a
  on_late-Safe (Pending.save k) w s a = a
  on_late-Safe Pending.lease w s a = a
  on_late-Safe Pending.read w s a = a
  on_late-Safe Pending.stats w s a = a
  on_late-Safe (Pending.watch subs period) w s a = a

  on_expired-Safe : (seq : ℕ) (p : Option (Pending × ℕ)) → AlwaysSafe (on_expired env seq p)
  unfolding on_expired
  on_expired-Safe seq none w s a = a
  on_expired-Safe seq (some (p, sent)) w s a = on_late-Safe p _ s a

  expire_all-Safe : (seqs : List ℕ) → AlwaysSafe (expire_all env seqs)
  unfolding expire_all
  expire_all-Safe [] w s a = a
  expire_all-Safe (seq ∷ seqs) w s a =
      and_then-Safe (on_expired env seq (lookup seq w.pending) (w, s)) _
        (on_expired-Safe seq (lookup seq w.pending) w s a) (λ u. expire_all-Safe seqs)

  pub expire-Safe : (now : ℕ) → AlwaysSafe (expire env now)
  unfolding expire
  expire-Safe now w s a = expire_all-Safe (late_seqs env now w.pending) w s a
