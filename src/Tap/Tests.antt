-- ===== src/Tap/Tests.antt =====
-- A tap with one subscriber, and the theorems about taps at it.
use tuning_tools.Base.{
  ℕ, ◌≤◌, ◌≡◌, refl, true, none, some, List, [], ◌∷◌, ◌++◌, arith, length, map, take, drop,
}
use tuning_tools.Message.{Text}
use tuning_tools.Batch.{SampleBatch}
use tuning_tools.Tap.{TapEvent, Subscriber, new, offer_all, publish_samples}
use tuning_tools.Watches.{WatchMeta, WatchSet, ids, watch_set, digits}
use tuning_tools.Tap.Columns.{Call, steps, samples_are_named}
use tuning_tools.Watches.Unique.{AreDistinct, HaveDistinctNames, watch_set-distinct}
use tuning_tools.Tap.Queues.{offer_events, Counts, offer_events-keeps}

abbrev meta : ℕ → Text → WatchMeta
meta id name = record { id = id; name = name; path = []; type_name = []; unit = none }

abbrev two_ticks : SampleBatch
two_ticks = record { ids = 1 ∷ 2 ∷ []; times = 0 ∷ 1 ∷ []; values = 0 ∷ 0 ∷ 0 ∷ 0 ∷ [] }

abbrev reader : Subscriber
reader = record {
  key = 0;
  capacity = 2;
  queue = TapEvent.clock 7 ∷ [];
  is_open = true;
  drops = record { batches = 0; ticks = 0; events = 0 };
}

abbrev offered : List TapEvent
offered = TapEvent.clock 8 ∷ TapEvent.samples two_ticks [] ∷ TapEvent.clock 9 ∷ []

offer_events-keeps_example :
    (s' : Subscriber) × (offer_events offered reader ≡ some s')
    × (s'.queue ≡ (TapEvent.clock 7 ∷ []) ++ take 1 offered)
    × (length s'.queue ≤ 2)
    × Counts (drop 1 offered) reader.drops s'.drops
offer_events-keeps_example =
    offer_events-keeps offered reader refl (omega arith)
      (record { batches = omega arith; ticks = omega arith; events = omega arith })

abbrev calls : List Call
calls =
    Call.join 8
    ∷ Call.watch (meta 1 (97 ∷ []) ∷ meta 2 (98 ∷ []) ∷ [])
    ∷ Call.watch (meta 2 (98 ∷ []) ∷ [])
    ∷ []

samples_are_named_example :
    (set : WatchSet) × (ids set ≡ 1 ∷ 2 ∷ [])
    × ((publish_samples two_ticks (steps calls new)).subscribers
        ≡ offer_all (TapEvent.samples two_ticks set) (steps calls new).subscribers)
samples_are_named_example = samples_are_named calls two_ticks

abbrev two_alike : List WatchMeta
two_alike = meta 1 (120 ∷ []) ∷ meta 2 (120 ∷ []) ∷ []

two_alike-AreDistinct : AreDistinct two_alike
two_alike-AreDistinct = (
  ((λ e. omega arith), tt),
  omega arith,
  ((λ e. omega arith), tt),
  (((λ e. omega arith), tt), omega arith, tt, tt),
)

watch_set-distinct_example : HaveDistinctNames (watch_set two_alike)
watch_set-distinct_example = watch_set-distinct two_alike two_alike-AreDistinct

-- Of `x#2`, `x` and `x` the last one is numbered, and takes the name of the first.
two_of_a_name :
    map
      (λ w. w.name)
      (watch_set (meta 1 (120 ∷ 35 ∷ 50 ∷ []) ∷ meta 5 (120 ∷ []) ∷ meta 2 (120 ∷ []) ∷ []))
    ≡ (120 ∷ 35 ∷ 50 ∷ []) ∷ (120 ∷ []) ∷ (120 ∷ 35 ∷ 50 ∷ []) ∷ []
unfolding watch_set digits
two_of_a_name = refl
