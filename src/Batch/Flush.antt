-- ===== src/Batch/Flush.antt =====
-- The ticks pushed into a builder, flushed and decoded.
use tuning_tools.Base.{
  ℕ, ◌≡◌, ◌∙◌, Option, some, List, [], ◌∷◌, ◌++◌, arith, length, append_assoc, append-nil, ◌>>=◌,
}
use tuning_tools.Batch.{FrameBuilder, reset, push, flush, take_pending, decode}
use tuning_tools.Batch.Rows.{Tick, AllWide, rows_times, rows_values, columns_of}
use tuning_tools.Batch.Code.{IsWhole, frame_of, encode-batch_of, decode-frame_of}

-- The calls of a sampler, a push for each tick.
pub push_all : FrameBuilder → List Tick → Option FrameBuilder
push_all b [] = some b
push_all b (t ∷ ts) = push b t.0 t.1 >>= λ c. push_all c ts

push_all-appends :
    (b : FrameBuilder) (ts : List Tick)
    → AllWide (length b.ids) ts
    → push_all b ts
      ≡ some (record b { times = b.times ++ rows_times ts; values = b.values ++ rows_values ts })
unfolding push_all push
push_all-appends b [] w = rw (append-nil b.times, append-nil b.values)
push_all-appends b (t ∷ ts) w = rw pushed (
    push_all-appends c ts w.1
    ∙ rw (
      append_assoc b.times (t.0 ∷ []) (rows_times ts),
      append_assoc b.values t.1 (rows_values ts),
    ))
  where
    c : FrameBuilder
    c = record b { times = b.times ++ (t.0 ∷ []); values = b.values ++ t.1 }

    pushed : push b t.0 t.1 ≡ some c
    pushed = ground (arith, w.0)

-- Of ticks that fit a frame, with a value for each id, every push is taken. A flush then yields a
-- frame that decodes to the times, and to one column for each id, in the order of the ids, with the
-- ticks' values in the order of the ticks; and it leaves the builder as `reset` did.
pub flush-push_all :
    (b : FrameBuilder) (ids : List ℕ) (t : Tick) (ts : List Tick)
    → IsWhole ids (t ∷ ts)
    → (c : FrameBuilder) × (bytes : List ℕ) × (push_all (reset b ids) (t ∷ ts) ≡ some c)
      × (flush c ≡ (some (some bytes), reset b ids))
      × (decode bytes
          ≡ some (record { times = rows_times (t ∷ ts); columns = columns_of 0 ids (t ∷ ts) }))
unfolding reset flush take_pending
flush-push_all b ids t ts h = (
  record { ids = ids; times = rows_times (t ∷ ts); values = rows_values (t ∷ ts) },
  frame_of ids (t ∷ ts),
  push_all-appends (record { ids = ids; times = []; values = [] }) (t ∷ ts) h.wide,
  rw (encode-batch_of ids (t ∷ ts) h),
  decode-frame_of ids (t ∷ ts) h,
)
