-- ===== src/Tap.antt =====
-- crates/studio-core/src/tap.rs: what the session sends, handed to subscribers with bounded queues. A lock
-- is held over each operation, so an operation is a function of what the lock guards.
mod Queues
mod Columns
mod Tests
use tuning_tools.Base.{
  ℕ, zero, suc, ◌+◌, ◌-◌, ◌*◌, ◌/◌, ◌%◌, ◌^◌, max, Bool, true, false, ◌&&◌, ◌||◌, not, Option, none,
  some, List, [], ◌∷◌, ◌++◌, map, length, ltb, ◌==◌, if◌then◌else◌, same_bytes,
}
use tuning_tools.Watches.{
  WatchMeta, WatchSet, digits, decimal, contains, numbered, named, free_name, rename_all, watch_set,
  ids,
}
use tuning_tools.Base.Dict.{lookup, insert}
use tuning_tools.Message.{Message, Text}
use tuning_tools.Batch.{SampleBatch}
use tuning_tools.Session.{LinkState, SessionEvent}
use tuning_tools.Tune.{CatalogCheck}

pub record TunableName : Type 0 where
  pub id : ℕ
  pub name : Text
  pub unit : Option Text

pub record SessionInfo : Type 0 where
  pub elf : Option Text
  pub elf_path : Option Text
  pub build_id : Option Text
  pub chip : Option Text
  pub carrier : Text
  pub port : Option Text
  pub rate_hz : ℕ
  pub app_version : Text
  pub tunables : List TunableName

pub record TuneRequest : Type 0 where
  pub action : Text
  pub id : Option ℕ
  pub value : Option ℕ
  pub error : Option Message

pub data TapEvent : Type 0 where
  samples : SampleBatch → WatchSet → TapEvent
  watches : WatchSet → TapEvent
  info : SessionInfo → TapEvent
  clock : ℕ → TapEvent
  event : SessionEvent → TapEvent
  tune_request : TuneRequest → TapEvent

pub record TapSnapshot : Type 0 where
  pub watches : WatchSet
  pub info : Option SessionInfo
  pub link : LinkState
  pub clock : Option ℕ
  pub check : Option CatalogCheck

pub record Drops : Type 0 where
  pub batches : ℕ
  pub ticks : ℕ
  pub events : ℕ

-- A subscriber, with the channel's queue and whether its receiver is there.
pub record Subscriber : Type 0 where
  pub key : ℕ
  pub capacity : ℕ
  pub queue : List TapEvent
  pub is_open : Bool
  pub drops : Drops

pub record Inner : Type 0 where
  pub subscribers : List Subscriber
  pub next_key : ℕ
  pub meta : List (ℕ × WatchMeta)
  pub watches : WatchSet
  pub batch_set : Option (List ℕ × WatchSet)
  pub info : Option SessionInfo
  pub link : LinkState
  pub clock : Option ℕ
  pub check : Option CatalogCheck

abbrev pub new : Inner
new = record {
  subscribers = [];
  next_key = 0;
  meta = [];
  watches = [];
  batch_set = none;
  info = none;
  link = LinkState.disconnected;
  clock = none;
  check = none;
}

unfoldable pub count_lost : TapEvent → Drops → Drops
count_lost (TapEvent.samples batch set) d = record d {
  batches = (d.batches + 1) % 2 ^ 64;
  ticks = (d.ticks + length batch.times) % 2 ^ 64;
}
count_lost e d = record d { events = (d.events + 1) % 2 ^ 64 }

-- `try_send` and what becomes of the subscriber: `none` is one that is not kept.
unfoldable pub offer : TapEvent → Subscriber → Option Subscriber
unfolding count_lost
offer e s =
    if not s.is_open
    then none
    else if ltb (length s.queue) s.capacity
    then some (record s { queue = s.queue ++ (e ∷ []) })
    else some (record s { drops = count_lost e s.drops })

abbrev pub kept : Option Subscriber → List Subscriber → List Subscriber
kept none rest = rest
kept (some s) rest = s ∷ rest

unfoldable pub offer_all : TapEvent → List Subscriber → List Subscriber
unfolding offer
offer_all e [] = []
offer_all e (s ∷ rest) = kept (offer e s) (offer_all e rest)

abbrev pub publish : TapEvent → Inner → Inner
publish e t = record t { subscribers = offer_all e t.subscribers }

abbrev pub snapshot : Inner → TapSnapshot
snapshot t = record {
  watches = t.watches;
  info = t.info;
  link = t.link;
  clock = t.clock;
  check = t.check;
}

-- The key of the subscription, what a new subscriber is told, and the tap.
unfoldable pub subscribe : ℕ → Inner → ℕ × (TapSnapshot × Inner)
subscribe capacity t = (
  t.next_key,
  (
    snapshot t,
    record t {
      next_key = (t.next_key + 1) % 2 ^ 64;
      subscribers =
          t.subscribers
          ++ (record {
            key = t.next_key;
            capacity = max capacity 1;
            queue = [];
            is_open = true;
            drops = record { batches = 0; ticks = 0; events = 0 };
          }
              ∷ []);
    },
  ),
)

-- `Subscription::drop`.
unfoldable pub without : ℕ → List Subscriber → List Subscriber
without key [] = []
without key (s ∷ rest) =
    let others = without key rest in if s.key == key then others else s ∷ others

abbrev pub unsubscribe : ℕ → Inner → Inner
unsubscribe key t = record t { subscribers = without key t.subscribers }

abbrev pub same_unit : Option Text → Option Text → Bool
same_unit none none = true
same_unit none (some y) = false
same_unit (some x) none = false
same_unit (some x) (some y) = same_bytes x y

abbrev pub same_meta : WatchMeta → WatchMeta → Bool
same_meta v w =
    v.id == w.id
    && (same_bytes v.name w.name
        && (same_bytes v.path w.path
            && (same_bytes v.type_name w.type_name && same_unit v.unit w.unit)))

unfoldable pub same_set : WatchSet → WatchSet → Bool
same_set [] [] = true
same_set [] (w ∷ ws) = false
same_set (v ∷ vs) [] = false
same_set (v ∷ vs) (w ∷ ws) = same_meta v w && same_set vs ws

unfoldable pub keep_meta : List WatchMeta → List (ℕ × WatchMeta) → List (ℕ × WatchMeta)
keep_meta [] meta = meta
keep_meta (w ∷ ws) meta = keep_meta ws (insert w.id w meta)

abbrev pub is_connected : LinkState → Bool
is_connected LinkState.connected = true
is_connected state = false

-- The ids of two sets are lists of numbers, which `same_bytes` compares.
unfoldable pub set_watches : List WatchMeta → Inner → Inner
unfolding keep_meta same_set watch_set
set_watches ws t =
    let set = watch_set ws in
    let t' = record t { meta = keep_meta ws t.meta } in
    let t'' = record t { meta = keep_meta ws t.meta; watches = set; batch_set = none } in
    if same_set set t.watches
    then t'
    else if not (is_connected t.link) || same_bytes (ids set) (ids t.watches)
    then publish (TapEvent.watches set) t''
    else t''

unfoldable pub connecting : SessionInfo → Inner → Inner
connecting i t = publish (TapEvent.info i) (record t { info = some i; clock = none; check = none })

abbrev pub rated : ℕ → Option SessionInfo → Inner → Inner
rated hz none t = t
rated hz (some i) t =
    publish (TapEvent.info (record i { rate_hz = hz }))
      (record t { info = some (record i { rate_hz = hz }) })

abbrev pub set_rate : ℕ → Inner → Inner
set_rate hz t = rated hz t.info t

abbrev pub start_clock : ℕ → Inner → Inner
start_clock at t = publish (TapEvent.clock at) (record t { clock = some at })

abbrev pub request_tune : TuneRequest → Inner → Inner
request_tune r t = publish (TapEvent.tune_request r) t

abbrev pub or_unnamed : ℕ → Option WatchMeta → WatchMeta
or_unnamed id (some w) = w
or_unnamed id none = record { id = id; name = numbered id; path = []; type_name = []; unit = none }

unfoldable pub metas : List (ℕ × WatchMeta) → List ℕ → List WatchMeta
metas meta [] = []
metas meta (id ∷ rest) = or_unnamed id (lookup id meta) ∷ metas meta rest

-- The set of a batch whose ids are not those of the last one.
unfoldable pub built_set : Inner → List ℕ → WatchSet
unfolding metas watch_set
built_set t xs = if same_bytes (ids t.watches) xs then t.watches else watch_set (metas t.meta xs)

unfoldable pub set_for : Inner → Option (List ℕ × WatchSet) → List ℕ → WatchSet
unfolding built_set
set_for t none xs = built_set t xs
set_for t (some (ys, set)) xs =
    let built = built_set t xs in if same_bytes ys xs then set else built

-- The last set is kept with its batch's ids, whether it is a new one or not.
unfoldable pub publish_samples : SampleBatch → Inner → Inner
unfolding set_for
publish_samples b t =
    let set = set_for t t.batch_set b.ids in
    publish (TapEvent.samples b set) (record t { batch_set = some (b.ids, set) })

abbrev pub noted : SessionEvent → Inner → Inner
noted (SessionEvent.status state message) t = record t { link = state }
noted (SessionEvent.tune check values) t = record t { check = some check }
noted e t = t

unfoldable pub on_event : SessionEvent → Inner → Inner
on_event e t = publish (TapEvent.event e) (noted e t)

-- What is received first, and the subscriber.
abbrev pub try_recv : Subscriber → Option TapEvent × Subscriber
try_recv s = elim s.queue [ [] ↦ (none, s) | e ∷ rest ↦ (some e, record s { queue = rest }) ]
