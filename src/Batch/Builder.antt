-- ===== src/Batch/Builder.antt =====
-- A builder holds whole rows, whatever is done with it.
use tuning_tools.Base.{
  ℕ, ◌≡◌, refl, ap, ◌∙◌, sym, some, none, List, [], ◌∷◌, ◌++◌, arith, length, Option, append_assoc,
  append-nil,
}
use tuning_tools.Batch.{FrameBuilder, SampleBatch, reset, push, take_pending, take_batch, encode}
use tuning_tools.Batch.Rows.{Tick, AllWide, rows_times, rows_values}
use tuning_tools.Batch.Code.{encode-AllWide, frame_of}

-- The times and the values of ticks, with a value for each id.
unfoldable pub HoldsRows : FrameBuilder → Type 0
HoldsRows b =
    (ts : List Tick) × AllWide (length b.ids) ts
    × (b.times ≡ rows_times ts)
    × (b.values ≡ rows_values ts)

pub reset-HoldsRows : (b : FrameBuilder) (ids : List ℕ) → HoldsRows (reset b ids)
unfolding HoldsRows reset
reset-HoldsRows b ids = ([], tt, refl, refl)

add_row :
    (c : ℕ) (ts : List Tick) (time : ℕ) (row : List ℕ)
    → AllWide c ts
    → length row ≡ c
    → (us : List Tick) × AllWide c us
      × (rows_times ts ++ (time ∷ []) ≡ rows_times us)
      × (rows_values ts ++ row ≡ rows_values us)
add_row c [] time row w h = ((time, row) ∷ [], (h, tt), refl, sym (append-nil row))
add_row c (t ∷ ts) time row w h =
    let (us, wide, times, values) = add_row c ts time row w.1 h in
    (
      t ∷ us,
      (w.0, wide),
      ap (λ x. t.0 ∷ x) times,
      append_assoc t.1 (rows_values ts) row ∙ ap (λ x. t.1 ++ x) values,
    )

pub push-HoldsRows :
    (b : FrameBuilder) (time : ℕ) (row : List ℕ)
    → HoldsRows b
    → length row ≡ length b.ids
    → (c : FrameBuilder) × (push b time row ≡ some c) × HoldsRows c × (c.ids ≡ b.ids)
unfolding HoldsRows push
push-HoldsRows b time row (ts, wide, times, values) h =
    let (us, wide', times', values') = add_row (length b.ids) ts time row wide h in
    (
      record b { times = b.times ++ (time ∷ []); values = b.values ++ row },
      ground arith,
      (us, wide', rw times times', rw values values'),
      refl,
    )

-- What a flush takes can be encoded, and it leaves a builder of the same ids.
abbrev pub Encodes : Option SampleBatch → Type 0
Encodes none = Unit {0}
Encodes (some batch) = (bytes : List ℕ) × (encode batch ≡ some bytes)

take_batch-HoldsRows :
    (xs : List ℕ) (b : FrameBuilder)
    → b.times ≡ xs
    → HoldsRows b
    → Encodes (take_batch xs b).0
      × HoldsRows (take_batch xs b).1
      × ((take_batch xs b).1.ids ≡ b.ids)
unfolding HoldsRows take_batch
take_batch-HoldsRows [] b e h = (tt, h, refl)
take_batch-HoldsRows (x ∷ xs) b e (ts, wide, times, values) = (
  (frame_of b.ids ts, rw (times, values) (encode-AllWide b.ids ts wide)),
  ([], tt, refl, refl),
  refl,
)

pub take_pending-HoldsRows :
    (b : FrameBuilder)
    → HoldsRows b
    → Encodes (take_pending b).0 × HoldsRows (take_pending b).1 × ((take_pending b).1.ids ≡ b.ids)
unfolding take_pending
take_pending-HoldsRows b h = take_batch-HoldsRows b.times b refl h
