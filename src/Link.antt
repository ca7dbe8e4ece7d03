-- ===== src/Link.antt =====
-- crates/studio-core/src/link.rs: a session over the firmware's framed link. The worker's fields are a
-- record; the stream and the sink are a world that each call passes on. An instant is its nanoseconds.
pub mod Samples
pub mod Frames
pub mod Commands
pub mod Entry
pub mod Handshake
mod Safe
mod Missed
mod Expired
mod Tests
use tuning_tools.Base.{
  ℕ, zero, suc, ◌+◌, ◌-◌, ◌*◌, ◌/◌, ◌%◌, ◌^◌, min, max, Bool, true, false, ◌&&◌, Option, none, some,
  List, [], ◌∷◌, ◌++◌, map, length, take, drop, ltb, ◌==◌, if◌then◌else◌,
}
use tuning_tools.Base.Bytes.{to_le_bytes}
use tuning_tools.Base.Dict.{lookup, insert}
use tuning_tools.Carrier
use tuning_tools.Carrier.{CarrierError}
use tuning_tools.Float.{Floats, Arithmetic}
use tuning_tools.Message.{Message, Text, Except, ok, err}
use tuning_tools.Wire
use tuning_tools.Wire.{Decoder}
use tuning_tools.Wire.Cmd
use tuning_tools.Batch.{FrameBuilder, SampleBatch}
use tuning_tools.Stats.{LinkStats}
use tuning_tools.Catalog.{Catalog, CatalogEntry, CellKind, entry}
use tuning_tools.Tune.{CatalogCheck, TuneValue}
use tuning_tools.Session.{SessionEvent}

abbrev pub reply_timeout : ℕ
reply_timeout = 1000000000

abbrev pub save_timeout : ℕ
save_timeout = 3000000000

abbrev pub read_chunk : ℕ
read_chunk = 20

abbrev pub max_watches : ℕ
max_watches = 32

abbrev pub max_period_ms : ℕ
max_period_ms = 1000

pub record Subscription : Type 0 where
  pub watch_id : ℕ
  pub kind : CellKind
  pub cell : ℕ

-- A request that waits for its reply, with the channel of the one who asked.
pub data Pending : Type 0 where
  lease read stats : Pending
  watch : List Subscription → ℕ → Pending
  write discard save : ℕ → Pending

pub record Worker : Type 0 where
  pub decoder : Decoder
  pub seq : ℕ
  pub token : ℕ
  pub catalog : Catalog
  pub pending : List (ℕ × (Pending × ℕ))
  pub start : ℕ
  pub rate_hz : ℕ
  pub wanted : List (ℕ × ℕ)
  pub active : List Subscription
  pub period_ms : ℕ
  pub frame : FrameBuilder
  -- The device's microseconds and the session's at the first sample: time zero is their difference.
  pub device_base : Option (ℕ × ℕ)
  pub last_sample_seq : Option ℕ
  pub missed_samples : ℕ
  pub values : List (ℕ × TuneValue)
  pub link_stats : LinkStats
  pub device_dropped : ℕ
  pub last_error : Option Message

-- What the worker calls: the byte stream, the sink, the channels of those who wait, and floats.
-- `millis` is `(1000.0 / rate).round()`, `time_of a b` is `(a - b) as f64 / 1e6` over signed numbers,
-- and `lossy` is `String::from_utf8_lossy`.
pub record Setting : Type 1 where
  pub World : Type 0
  pub write_all : World → List ℕ → Carrier.Result (Unit {0}) × World
  pub event : World → SessionEvent → World
  pub samples : World → SampleBatch → World
  pub frame_taken : World → List ℕ → Bool × World
  pub reply : World → ℕ → Except Message (Unit {0}) → World
  pub fl : Floats
  pub ops : Arithmetic
  pub millis : ℕ → ℕ
  pub time_of : ℕ → ℕ → ℕ
  pub lossy : List ℕ → List ℕ

pub data Failure : Type 0 where
  fails : Message → Failure
  panics : Failure

-- A method of the worker: its result, and the worker and the world behind it, also where it fails.
abbrev pub Method : Type 0 → Type 0 → Type 0
Method W A = Worker × W → Except Failure A × (Worker × W)

abbrev pub and_then :
    {W A B : Type 0}
    → Except Failure A × (Worker × W)
    → (A → Method W B)
    → Except Failure B × (Worker × W)
and_then (ok a, s) f = f a s
and_then (err e, s) f = (err e, s)

infixl 5 ◌>>=◌ ◌>>◌
abbrev pub ◌>>=◌ : {W A B : Type 0} → Method W A → (A → Method W B) → Method W B
◌>>=◌ m f s = and_then (m s) f

abbrev pub ◌>>◌ : {W B : Type 0} → Method W (Unit {0}) → Method W B → Method W B
m >> n = m >>= λ _. n

abbrev pub pure : {W A : Type 0} → A → Method W A
pure a s = (ok a, s)

-- A change of the worker's fields.
abbrev pub modify : {W : Type 0} → (Worker → Worker) → Method W (Unit {0})
modify f (w, s) = (ok tt, (f w, s))

-- A call of the world that cannot fail.
abbrev pub tell : {W : Type 0} → (W → W) → Method W (Unit {0})
tell f (w, s) = (ok tt, (w, f s))

abbrev pub next_seq : ℕ → ℕ
next_seq seq = (seq + 1) % 2 ^ 16

-- The subscriptions of the watches whose cell the catalog has, in their order.
unfoldable pub subscriptions : Catalog → List (ℕ × ℕ) → List Subscription
subscriptions c [] = []
subscriptions c ((watch_id, cell) ∷ wanted) =
    let rest = subscriptions c wanted in
    elim (entry c cell) [
      | none ↦ rest
      | some e ↦ record { watch_id = watch_id; kind = e.kind; cell = cell } ∷ rest
    ]

unfoldable pub cell_words : List ℕ → List ℕ
cell_words [] = []
cell_words (id ∷ ids) = to_le_bytes 4 id ++ cell_words ids

-- `chunks(READ_CHUNK)`, on fuel.
unfoldable pub chunks : ℕ → List ℕ → List (List ℕ)
chunks zero ids = []
chunks (suc n) [] = []
chunks (suc n) (id ∷ ids) = take read_chunk (id ∷ ids) ∷ chunks n (drop read_chunk (id ∷ ids))

-- The values that are known, in the order of the catalog.
unfoldable pub known_values : List (ℕ × TuneValue) → List CatalogEntry → List TuneValue
known_values values [] = []
known_values values (e ∷ es) =
    let rest = known_values values es in
    elim (lookup e.id values) [ none ↦ rest | some v ↦ v ∷ rest ]

abbrev pub or_else : {A : Type 0} → Option A → A → A
or_else none d = d
or_else (some a) d = a

module _ (env : Setting) where
  open env use {World, write_all, event}

  -- The outcome of a write to the stream.
  abbrev pub wrote :
      Worker → Carrier.Result (Unit {0}) × World → Except Failure (Unit {0}) × (Worker × World)
  wrote w (Carrier.ok u, s) = (ok tt, (w, s))
  wrote w (Carrier.err e, s) = (err (Failure.fails (Message.carrier e)), (w, s))

  -- A frame that does not fit panics in `encode`.
  unfoldable pub write_frame : Option (List ℕ) → Method World (Unit {0})
  write_frame none s = (err Failure.panics, s)
  write_frame (some bytes) (w, s) = wrote w (write_all s bytes)

  unfoldable pub send : ℕ → List ℕ → Method World ℕ
  unfolding write_frame
  send code payload (w, s) =
      let seq = next_seq w.seq in
      (do write_frame (Wire.encode code seq payload); pure seq) (record w { seq = seq }, s)

  -- Send a request at the instant `now`, and wait for its reply.
  unfoldable pub request : ℕ → ℕ → List ℕ → Pending → Method World (Unit {0})
  unfolding send
  request now code payload pending = do
    seq ← send code payload
    modify (λ w. record w { pending = insert seq (pending, now) w.pending })

  abbrev pub wanted_subs : Worker → List Subscription
  wanted_subs w = take max_watches (subscriptions w.catalog w.wanted)

  -- The period in milliseconds of a rate, from 1 to 1000; 0 for a rate that is not a number.
  abbrev pub period_for : ℕ → ℕ
  period_for rate = if env.fl.is_nan rate then 0 else max 1 (min max_period_ms (env.millis rate))

  abbrev pub sampled_every : ℕ → List Subscription → ℕ
  sampled_every period [] = 0
  sampled_every period (x ∷ xs) = period

  abbrev pub watch_payload : ℕ → List Subscription → List ℕ
  watch_payload period subs =
      to_le_bytes 2 period ++ (length subs ∷ cell_words (map (λ x. x.cell) subs))

  -- Ask the firmware to sample the wanted watches.
  unfoldable pub subscribe : ℕ → Option ℕ → Method World (Unit {0})
  unfolding request subscriptions cell_words
  subscribe now period_ms (w, s) =
      let subs = wanted_subs w in
      let period = sampled_every (or_else period_ms (period_for w.rate_hz)) subs in
      let w' =
        if ltb max_watches (length w.wanted)
        then record w { last_error = some Message.too_many_watches }
        else w in
      request now Cmd.watch (watch_payload period subs) (Pending.watch subs period) (w', s)

  unfoldable pub request_reads : ℕ → List (List ℕ) → Method World (Unit {0})
  unfolding request cell_words
  request_reads now [] = pure tt
  request_reads now (ids ∷ rest) = do
    request now Cmd.read (length ids ∷ cell_words ids) Pending.read
    request_reads now rest

  abbrev pub ids_of : Catalog → List ℕ
  ids_of c = map (λ e. e.id) c.entries

  unfoldable pub poll_values : ℕ → Method World (Unit {0})
  unfolding request_reads chunks known_values
  poll_values now (w, s) =
      let ids = ids_of w.catalog in
      (do
        request_reads now (chunks (length ids) ids)
        λ (w', s'). (
          ok tt,
          (
            w',
            event s' (
                SessionEvent.tune CatalogCheck.matches (known_values w'.values w'.catalog.entries)),
          ),
        ))
        (w, s)
