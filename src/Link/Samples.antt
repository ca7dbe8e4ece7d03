-- ===== src/Link/Samples.antt =====
-- crates/studio-core/src/link.rs: the values and the samples that the firmware sends, and their batches.
use tuning_tools.Base.{
  ℕ, zero, suc, ◌+◌, ◌-◌, ◌*◌, ◌/◌, ◌%◌, ◌^◌, min, Bool, true, false, ◌&&◌, ◌||◌, not, Option, none,
  some, List, [], ◌∷◌, ◌++◌, map, length, ltb, ◌==◌, if◌then◌else◌,
}
use tuning_tools.Base
use tuning_tools.Base.Dict.{insert}
use tuning_tools.Message.{ok, err}
use tuning_tools.Wire.Reader.{read_u8, read_u32, read_u64}
use tuning_tools.Batch.{FrameBuilder, SampleBatch}
use tuning_tools.Batch
use tuning_tools.Stats.{record_tick, snapshot}
use tuning_tools.Catalog.{Catalog, entry, decode}
use tuning_tools.Tune.{TuneValue}
use tuning_tools.Session.{SessionEvent, CoreState, StreamState}
use tuning_tools.Link.{Worker, Subscription, Setting, Failure, Method, ◌>>◌, modify, or_else}

-- Three words, or `none` where fewer are left.
unfoldable pub read_three : List ℕ → Option ((ℕ × (ℕ × ℕ)) × List ℕ)
read_three bytes =
    Base.◌>>=◌ (read_u32 bytes) λ a.
      Base.◌>>=◌ (read_u32 a.1) λ b. Base.◌>>=◌ (read_u32 b.1) λ c. some ((a.0, (b.0, c.0)), c.1)

-- The samples that lie between two sequence numbers.
unfoldable pub missed_between : ℕ → ℕ → ℕ
missed_between last seq = (seq + 2 ^ 17 - last - 1) % 2 ^ 16

abbrev pub missed_since : Option ℕ → ℕ → ℕ
missed_since none seq = 0
missed_since (some last) seq = missed_between last seq

module _ (env : Setting) where
  open env use {World, samples, event, frame_taken, reply, fl, ops, time_of}

  -- The values of a READ reply, `n` of them.
  unfoldable pub read_values : Catalog → ℕ → List ℕ → List (ℕ × TuneValue) → List (ℕ × TuneValue)
  unfolding read_three decode
  read_values c zero bytes values = values
  read_values c (suc n) bytes values = elim (read_three bytes) [
    | none ↦ values
    | some ((id, (requested, applied)), rest) ↦ read_values c n rest (elim (entry c id) [
      | none ↦ values
      | some e ↦
          insert id
            (record {
              id = id;
              requested = some (decode fl e.kind requested);
              applied = some (decode fl e.kind applied);
            })
            values
    ])
  ]

  unfoldable pub on_values : List ℕ → Worker → Worker
  unfolding read_values
  on_values body w = elim (read_u8 body) [
    | none ↦ w
    | some (count, rest) ↦ record w { values = read_values w.catalog count rest w.values }
  ]

  -- A word for each subscription; a missing one is 0.
  unfoldable pub read_row : List Subscription → List ℕ → List ℕ
  unfolding decode
  read_row [] bytes = []
  read_row (x ∷ xs) bytes = elim (read_u32 bytes) [
    | none ↦ decode fl x.kind 0 ∷ read_row xs bytes
    | some (bits, rest) ↦ decode fl x.kind bits ∷ read_row xs rest
  ]

  -- A panic where the row has not a value for each id.
  unfoldable pub push_row : ℕ → List ℕ → Method World (Unit {0})
  push_row time row (w, s) = elim (Batch.push w.frame time row) [
    | none ↦ (err Failure.panics, (w, s))
    | some frame ↦ (ok tt, (record w { frame = frame }, s))
  ]

  -- A sample whose count and length are those of the active subscription, at the instant `now`.
  unfoldable pub take_sample : ℕ → ℕ → ℕ → List ℕ → ℕ → Method World (Unit {0})
  unfolding read_row push_row missed_between
  take_sample now seq device_us words len (w, s) =
      let elapsed_us = (now - w.start) / 1000 in
      let base = or_else w.device_base (device_us, elapsed_us) in
      let w' = record w {
        missed_samples = (w.missed_samples + missed_since w.last_sample_seq seq) % 2 ^ 64;
        last_sample_seq = some seq;
        device_base = some base;
      } in
      (do
        push_row (time_of (device_us + base.1) base.0) (read_row w.active words)
        modify (λ v. record v { link_stats = record_tick v.link_stats now 0 (len + 10) 0 }))
        (w', s)

  abbrev pub fits_active : ℕ → List ℕ → List Subscription → Bool
  fits_active count words active = count == length active && length words == length active * 4

  unfoldable pub on_count : ℕ → ℕ → List ℕ → ℕ → Option (ℕ × List ℕ) → Method World (Unit {0})
  unfolding take_sample
  on_count now seq payload device_us none s = (ok tt, s)
  on_count now seq payload device_us (some (count, words)) (w, s) =
      if fits_active count words w.active
      then take_sample now seq device_us words (length payload) (w, s)
      else (ok tt, (w, s))

  unfoldable pub on_time : ℕ → ℕ → List ℕ → Option (ℕ × List ℕ) → Method World (Unit {0})
  unfolding on_count
  on_time now seq payload none s = (ok tt, s)
  on_time now seq payload (some (device_us, rest)) s =
      on_count now seq payload device_us (read_u8 rest) s

  unfoldable pub on_sample : ℕ → ℕ → List ℕ → Method World (Unit {0})
  unfolding on_time
  on_sample now seq payload s = on_time now seq payload (read_u64 payload) s

  abbrev pub count_frame : Bool → Worker → Worker
  count_frame true w = record w {
    link_stats = record w.link_stats { frames_sent = (w.link_stats.frames_sent + 1) % 2 ^ 64 };
  }
  count_frame false w = record w {
    link_stats = record w.link_stats {
      frames_dropped = (w.link_stats.frames_dropped + 1) % 2 ^ 64;
    };
  }

  unfoldable pub deliver : Option SampleBatch → Method World (Unit {0})
  deliver none s = (ok tt, s)
  deliver (some batch) (w, s) =
      let s' = samples s batch in
      elim (Batch.encode batch) [
        | none ↦ (err Failure.panics, (w, s'))
        | some bytes ↦
            let (taken, s'') = frame_taken s' bytes in (ok tt, (count_frame taken w, s''))
      ]

  unfoldable pub flush_frame : Method World (Unit {0})
  unfolding deliver
  flush_frame (w, s) =
      let (batch, left) = Batch.take_pending w.frame in deliver batch (record w { frame = left }, s)

  -- The statistics, with the bad frames in the place of failed regions.
  unfoldable pub report_stats : Method World (Unit {0})
  report_stats (w, s) =
      let target_hz =
        if w.period_ms == 0
        then ops.of_u64 0
        else ops.div (ops.of_u64 1000) (ops.of_u64 w.period_ms) in
      let shot =
        snapshot ops w.link_stats target_hz ((w.device_dropped + w.missed_samples) % 2 ^ 64) 0
          (length w.active) in
      (
        ok tt,
        (
          record w { last_error = none },
          event s (
              SessionEvent.stats (record shot { failed_regions = w.decoder.bad_frames })
                CoreState.running StreamState.absent w.last_error),
        ),
      )
