-- ===== src/Tap/Queues.antt =====
-- crates/studio-core/src/tap.rs: a subscriber's queue is bounded, and what does not fit is counted.
use tuning_tools.Base.{
  ℕ, zero, suc, ◌+◌, ◌-◌, ◌%◌, ◌^◌, ◌<◌, ◌≤◌, ◌≡◌, refl, ◌∙◌, arith, true, false, Option, some,
  List, [], ◌∷◌, ◌++◌, length, length-append, append_assoc, append-nil, length-take, take, drop,
  ltb, ◌>>=◌,
}
use tuning_tools.Tap.{TapEvent, Subscriber, Drops, count_lost, offer}

-- The events that are offered while none is received.
pub offer_events : List TapEvent → Subscriber → Option Subscriber
offer_events [] s = some s
offer_events (e ∷ es) s = offer e s >>= λ s'. offer_events es s'

count_all : List TapEvent → Drops → Drops
count_all [] d = d
count_all (e ∷ es) d = count_all es (count_lost e d)

-- The batches among the events, their ticks, and the others.
abbrev pub batches_in : List TapEvent → ℕ
batches_in [] = 0
batches_in (TapEvent.samples batch set ∷ es) = 1 + batches_in es
batches_in (e ∷ es) = batches_in es

abbrev pub ticks_in : List TapEvent → ℕ
ticks_in [] = 0
ticks_in (TapEvent.samples batch set ∷ es) = length batch.times + ticks_in es
ticks_in (e ∷ es) = ticks_in es

abbrev pub others_in : List TapEvent → ℕ
others_in [] = 0
others_in (TapEvent.samples batch set ∷ es) = others_in es
others_in (e ∷ es) = 1 + others_in es

pub record AreWords (d : Drops) : Type 0 where
  pub batches : d.batches < 2 ^ 64
  pub ticks : d.ticks < 2 ^ 64
  pub events : d.events < 2 ^ 64

-- The counts of `d'` are those of `d` and of the lost events.
pub record Counts (es : List TapEvent) (d d' : Drops) : Type 0 where
  pub batches : d'.batches ≡ (d.batches + batches_in es) % 2 ^ 64
  pub ticks : d'.ticks ≡ (d.ticks + ticks_in es) % 2 ^ 64
  pub events : d'.events ≡ (d.events + others_in es) % 2 ^ 64

count_lost-AreWords : (e : TapEvent) (d : Drops) → AreWords d → AreWords (count_lost e d)
unfolding count_lost
count_lost-AreWords (TapEvent.samples batch set) d h = record {
  batches = omega arith;
  ticks = omega arith;
  events = h.events;
}
count_lost-AreWords e d h = record { batches = h.batches; ticks = h.ticks; events = omega arith }

add_mod : (a b c x : ℕ) → x ≡ ((a + b) % 2 ^ 64 + c) % 2 ^ 64 → x ≡ (a + (b + c)) % 2 ^ 64
add_mod a b c x h = omega arith

count_all-Counts : (es : List TapEvent) (d : Drops) → AreWords d → Counts es d (count_all es d)
unfolding count_all count_lost
count_all-Counts [] d h = record {
  batches = omega (arith, h.batches);
  ticks = omega (arith, h.ticks);
  events = omega (arith, h.events);
}
count_all-Counts (TapEvent.samples batch set ∷ es) d h =
    let lost = TapEvent.samples batch set in
    let rest = count_all-Counts es (count_lost lost d) (count_lost-AreWords lost d h) in
    record {
      batches = add_mod d.batches 1 (batches_in es) _ rest.batches;
      ticks = add_mod d.ticks (length batch.times) (ticks_in es) _ rest.ticks;
      events = rest.events;
    }
count_all-Counts (e ∷ es) d h =
    let rest = count_all-Counts es (count_lost e d) (count_lost-AreWords e d h) in
    record {
      batches = rest.batches;
      ticks = rest.ticks;
      events = add_mod d.events 1 (others_in es) _ rest.events;
    }

offer_full :
    (e : TapEvent) (s : Subscriber)
    → s.is_open ≡ true
    → ltb (length s.queue) s.capacity ≡ false
    → offer e s ≡ some (record s { drops = count_lost e s.drops })
unfolding offer
offer_full e s o h = rw (o, h) refl

offer_free :
    (e : TapEvent) (s : Subscriber)
    → s.is_open ≡ true
    → ltb (length s.queue) s.capacity ≡ true
    → offer e s ≡ some (record s { queue = s.queue ++ (e ∷ []) })
unfolding offer
offer_free e s o h = rw (o, h) refl

offer_events-room :
    (es : List TapEvent) (s : Subscriber) (room : ℕ)
    → s.is_open ≡ true
    → length s.queue + room ≡ s.capacity
    → offer_events es s
      ≡ some
          (record s { queue = s.queue ++ take room es; drops = count_all (drop room es) s.drops })
unfolding offer_events count_all
offer_events-room [] s zero o h = rw (append-nil s.queue)
offer_events-room [] s (suc room) o h = rw (append-nil s.queue)
offer_events-room (e ∷ es) s zero o h =
    let full : ltb (length s.queue) s.capacity ≡ false = ground arith in
    rw (offer_full e s o full)
      (offer_events-room es (record s { drops = count_lost e s.drops }) zero o h)
offer_events-room (e ∷ es) s (suc room) o h =
    let free : ltb (length s.queue) s.capacity ≡ true = ground arith in
    let size = length-append s.queue (e ∷ []) in
    let rest =
      offer_events-room es (record s { queue = s.queue ++ (e ∷ []) }) room o
        (omega (arith, size)) in
    rw (offer_free e s o free) (rest ∙ rw (append_assoc s.queue (e ∷ []) (take room es)))

-- An open subscriber that receives nothing keeps the events, in their order, that its queue has room for,
-- and its queue stays within its capacity; of the ones behind them each is counted as lost, a batch with
-- its ticks, and another one as an event. The counts are of 64 bits.
pub offer_events-keeps :
    (es : List TapEvent) (s : Subscriber)
    → s.is_open ≡ true
    → length s.queue ≤ s.capacity
    → AreWords s.drops
    → let room = s.capacity - length s.queue in
      (s' : Subscriber) × (offer_events es s ≡ some s')
      × (s'.queue ≡ s.queue ++ take room es)
      × (length s'.queue ≤ s.capacity)
      × Counts (drop room es) s.drops s'.drops
offer_events-keeps es s o h words =
    let room = s.capacity - length s.queue in
    (
      record s { queue = s.queue ++ take room es; drops = count_all (drop room es) s.drops },
      offer_events-room es s room o (omega arith),
      refl,
      ground (arith, length-append s.queue (take room es), length-take room es),
      count_all-Counts (drop room es) s.drops words,
    )
