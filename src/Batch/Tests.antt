-- ===== src/Batch/Tests.antt =====
-- The source's round trip of two columns, and the theorem at it.
use tuning_tools.Base.{◌≡◌, refl, some, none, [], ◌∷◌, arith}
use tuning_tools.Batch.{take_pending, FrameBuilder, SampleBatch, flush, row, column, decode}
use tuning_tools.Batch.Rows.{Tick, batch_of}
use tuning_tools.Batch.Code.{IsWhole}
use tuning_tools.Batch.Flush.{flush-push_all}

-- The bits of 0.0, 0.01, 1.0, 2.0, 3.0 and a NaN.
abbrev first_tick : Tick
first_tick = (0, 0x3ff0000000000000 ∷ 0x4000000000000000 ∷ [])

abbrev second_tick : Tick
second_tick = (0x3f847ae147ae147b, 0x4008000000000000 ∷ 0x7ff8000000000000 ∷ [])

abbrev no_ids : FrameBuilder
no_ids = record { ids = []; times = []; values = [] }

two_ticks-IsWhole : IsWhole (7 ∷ 9 ∷ []) (first_tick ∷ second_tick ∷ [])
two_ticks-IsWhole = record {
  few_ids = omega arith;
  few_ticks = omega arith;
  small_ids = omega arith;
  wide = omega arith;
  fit = omega arith;
}

abbrev two_ticks : SampleBatch
two_ticks = batch_of (7 ∷ 9 ∷ []) (first_tick ∷ second_tick ∷ [])

second_row : row two_ticks 1 ≡ some second_tick.1
unfolding row
second_row = refl

first_column : column two_ticks 0 ≡ some (0x3ff0000000000000 ∷ 0x4008000000000000 ∷ [])
unfolding column
first_column = refl

nothing_to_flush : flush no_ids ≡ (some none, no_ids)
unfolding flush take_pending
nothing_to_flush = refl

flush-push_all_example :
    decode (flush-push_all no_ids (7 ∷ 9 ∷ []) first_tick (second_tick ∷ []) two_ticks-IsWhole).1
    ≡ some (record {
      times = 0 ∷ 0x3f847ae147ae147b ∷ [];
      columns =
          (7, 0x3ff0000000000000 ∷ 0x4008000000000000 ∷ [])
          ∷ (9, 0x4000000000000000 ∷ 0x7ff8000000000000 ∷ [])
          ∷ [];
    })
flush-push_all_example =
    (flush-push_all no_ids (7 ∷ 9 ∷ []) first_tick (second_tick ∷ []) two_ticks-IsWhole).4
