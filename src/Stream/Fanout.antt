-- ===== src/Stream/Fanout.antt =====
-- crates/studio-app/src/stream.rs: what the fan-out keeps, and what it sends to its clients for each event.
pub mod Reaped
use tuning_tools.Base.{
  ℕ, zero, suc, ◌+◌, ◌-◌, ◌%◌, ◌^◌, Bool, true, false, ◌&&◌, ◌||◌, not, Option, none, some, List,
  [], ◌∷◌, ◌++◌, map, length, ltb, ◌==◌, if◌then◌else◌,
}
use tuning_tools.Base.Dict.{lookup, insert}
use tuning_tools.Message.{Message, Text}
use tuning_tools.Float.{Floats}
use tuning_tools.Batch.{SampleBatch}
use tuning_tools.Catalog.{Catalog}
use tuning_tools.Tune.{CatalogCheck, TuneValue, same_float}
use tuning_tools.Session.{LinkState, SessionEvent, LogLine}
use tuning_tools.Watches.{WatchSet}
use tuning_tools.Tap.{SessionInfo, TapEvent, TapSnapshot, TuneRequest, TunableName, same_set}
use tuning_tools.Stream.{
  Line, Session, Client, protocol_version, new_client, offer, broadcast, dropped_total,
}

pub record Fanout : Type 0 where
  pub client_queue : ℕ
  pub drop_limit : ℕ
  pub clients : List Client
  pub watches : WatchSet
  pub info : Option SessionInfo
  pub link : LinkState
  pub clock : Option ℕ
  pub check : Option CatalogCheck
  pub names : List (ℕ × Text)
  pub tune : List (ℕ × TuneValue)
  pub seq : ℕ
  -- The batches that clients lost which are gone.
  pub dropped_gone : ℕ
  -- The tap's drops that clients were told of.
  pub tap_dropped : ℕ

abbrev pub name_all : List TunableName → List (ℕ × Text) → List (ℕ × Text)
name_all [] names = names
name_all (t ∷ tunables) names = name_all tunables (insert t.id t.name names)

abbrev pub names_of : Option SessionInfo → List (ℕ × Text)
names_of none = []
names_of (some info) = name_all info.tunables []

unfoldable pub new : ℕ → ℕ → TapSnapshot → Fanout
new client_queue drop_limit s = record {
  client_queue = client_queue;
  drop_limit = drop_limit;
  clients = [];
  watches = s.watches;
  info = s.info;
  link = s.link;
  clock = s.clock;
  check = s.check;
  names = names_of s.info;
  tune = [];
  seq = 0;
  dropped_gone = 0;
  tap_dropped = 0;
}

abbrev pub session_of : Fanout → Session
session_of f = record { info = f.info; link = f.link; clock = f.clock; check = f.check }

unfoldable pub send_all : Line → Bool → Fanout → Fanout
send_all line batch f = record f { clients = broadcast f.drop_limit line batch f.clients }

-- A new client is greeted; `u64::MAX` is its limit then.
unfoldable pub add : Fanout → Fanout
add f =
    let hello = Line.hello protocol_version (session_of f) f.watches in
    let (kept, c) = offer hello false (2 ^ 64 - 1) (new_client f.client_queue) in
    record f { clients = f.clients ++ (c ∷ []) }

-- The fan-out itself fell behind: every client missed these.
unfoldable pub tell_lost : ℕ → Fanout → Fanout
unfolding send_all
tell_lost lost f =
    if ltb f.tap_dropped lost
    then send_all (Line.dropped (lost - f.tap_dropped) 0) false (record f { tap_dropped = lost })
    else f

-- The rest with its last client in the place of the first one, as `swap_remove` leaves it.
unfoldable pub last_first : List Client → List Client → List Client
last_first front [] = front
last_first front (c ∷ []) = c ∷ front
last_first front (c ∷ d ∷ rest) = last_first (front ++ (c ∷ [])) (d ∷ rest)

-- The loop of `reap` behind the clients that stay, a round for each that is left.
unfoldable pub reap_from : ℕ → List Client → List Client → ℕ → List Client × ℕ
unfolding last_first
reap_from zero kept rest gone = (kept ++ rest, gone)
reap_from (suc n) kept [] gone = (kept, gone)
reap_from (suc n) kept (c ∷ rest) gone =
    let stays = reap_from n (kept ++ (c ∷ [])) rest gone in
    let goes = reap_from n kept (last_first [] rest) (gone + c.dropped_batches) in
    if c.alive then stays else goes

-- Drop clients that left or were disconnected.
unfoldable pub reap : Fanout → Fanout
unfolding reap_from
reap f =
    let (clients, gone) = reap_from (length f.clients) [] f.clients f.dropped_gone in
    record f { clients = clients; dropped_gone = gone }

-- The batches that were lost, over every client.
unfoldable pub dropped_by_all : Fanout → ℕ
dropped_by_all f = f.dropped_gone + f.tap_dropped + dropped_total f.clients

unfoldable pub set_watches : WatchSet → Fanout → Fanout
unfolding send_all
set_watches set f =
    if same_set f.watches set
    then f
    else send_all (Line.watches set) false (record f { watches = set })

abbrev pub name_for : Option ℕ → List (ℕ × Text) → Option Text
name_for none names = none
name_for (some id) names = lookup id names

-- `same_check` is the equality of checks, whose texts are compared.
module _ (fl : Floats) (same_check : CatalogCheck → CatalogCheck → Bool) where
  abbrev pub same_value : TuneValue → TuneValue → Bool
  same_value v v' =
      v.id == v'.id
      && (same_float fl v.requested v'.requested && same_float fl v.applied v'.applied)

  abbrev pub is_known : Option TuneValue → TuneValue → Bool
  is_known none v = false
  is_known (some v') v = same_value v' v

  unfoldable pub all_known : List (ℕ × TuneValue) → List TuneValue → Bool
  all_known tune [] = true
  all_known tune (v ∷ values) = is_known (lookup v.id tune) v && all_known tune values

  abbrev pub is_checked : Option CatalogCheck → CatalogCheck → Bool
  is_checked none check = false
  is_checked (some check') check = same_check check' check

  unfoldable pub keep_all : List TuneValue → List (ℕ × TuneValue) → List (ℕ × TuneValue)
  keep_all [] tune = tune
  keep_all (v ∷ values) tune = keep_all values (insert v.id v tune)

  -- Values are sent where one of them, or the check, is another than before.
  unfoldable pub on_tune : CatalogCheck → List TuneValue → Fanout → Fanout
  unfolding all_known keep_all send_all
  on_tune check values f =
      let f' = record f { check = some check } in
      if length values == length f.tune && all_known f.tune values && is_checked f.check check
      then f'
      else send_all (Line.tune_values check (map (λ v. (v, lookup v.id f.names)) values)) false
          (record f' { tune = keep_all values [] })

  unfoldable pub session_event : SessionEvent → Fanout → Fanout
  unfolding on_tune send_all
  session_event (SessionEvent.status state message) f =
      let f' = record f { link = state } in
      send_all (Line.status state message (session_of f')) false f'
  session_event (SessionEvent.log lines) f = send_all (Line.log lines) false f
  session_event (SessionEvent.tune check values) f = on_tune check values f
  session_event (SessionEvent.catalog c) f = record f {
    names = name_all (map (λ e. record { id = e.id; name = e.name; unit = none }) c.entries) [];
  }
  session_event (SessionEvent.stats s core log e) f = f

  unfoldable pub handle : TapEvent → Fanout → Fanout
  unfolding session_event set_watches send_all
  handle (TapEvent.samples batch set) f =
      let f' = set_watches set f in
      let seq = (f'.seq + 1) % 2 ^ 64 in
      send_all (Line.samples seq batch set) true (record f' { seq = seq })
  handle (TapEvent.watches set) f = set_watches set f
  handle (TapEvent.info info) f = record f {
    names = names_of (some info);
    info = some info;
    clock = none;
    check = none;
    tune = [];
  }
  handle (TapEvent.clock at) f = record f { clock = some at }
  handle (TapEvent.tune_request request) f =
      send_all (Line.tune_request request (name_for request.id f.names)) false f
  handle (TapEvent.event e) f = session_event e f
