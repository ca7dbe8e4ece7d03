-- ===== src/Stream.antt =====
-- crates/studio-app/src/stream.rs: the live stream's clients, and the lines that the fan-out sends them. A
-- line is what its JSON says. The client's writer takes the queue's lines from the front.
pub mod Fanout
mod Told
mod Tests
use tuning_tools.Base.{
  ℕ, zero, suc, ◌+◌, ◌-◌, ◌%◌, ◌^◌, max, Bool, true, false, ◌&&◌, ◌||◌, not, Option, none, some,
  List, [], ◌∷◌, ◌++◌, map, length, ltb, leb, ◌==◌, if◌then◌else◌,
}
use tuning_tools.Message.{Message, Text}
use tuning_tools.Batch.{SampleBatch}
use tuning_tools.Tune.{CatalogCheck, TuneValue}
use tuning_tools.Session.{LinkState, LogLine}
use tuning_tools.Watches.{WatchSet}
use tuning_tools.Tap.{SessionInfo, TuneRequest}

abbrev pub protocol_version : ℕ
protocol_version = 1

-- What a line says of the session.
pub record Session : Type 0 where
  pub info : Option SessionInfo
  pub link : LinkState
  pub clock : Option ℕ
  pub check : Option CatalogCheck

pub data Line : Type 0 where
  hello : ℕ → Session → WatchSet → Line
  samples : ℕ → SampleBatch → WatchSet → Line
  watches : WatchSet → Line
  -- Batches and messages that were lost.
  dropped : ℕ → ℕ → Line
  tune_request : TuneRequest → Option Text → Line
  tune_values : CatalogCheck → List (TuneValue × Option Text) → Line
  status : LinkState → Option Message → Session → Line
  log : List LogLine → Line

pub record Client : Type 0 where
  pub queue : List Line
  pub capacity : ℕ
  -- Whether the writer still takes lines.
  pub is_open : Bool
  pub alive : Bool
  pub pending_batches : ℕ
  pub pending_messages : ℕ
  pub dropped_batches : ℕ

unfoldable pub new_client : ℕ → Client
new_client queue_len = record {
  queue = [];
  capacity = max queue_len 2;
  is_open = true;
  alive = true;
  pending_batches = 0;
  pending_messages = 0;
  dropped_batches = 0;
}

pub data Sent : Type 0 where
  taken full disconnected : Sent

-- `try_send`.
unfoldable pub try_send : Line → Client → Sent × Client
try_send line c =
    if c.is_open
    then (if ltb (length c.queue) c.capacity
        then (taken, record c { queue = c.queue ++ (line ∷ []) })
        else (full, c))
    else (disconnected, c)

abbrev pub count_lost : Bool → Client → Client
count_lost true c = record c {
  pending_batches = c.pending_batches + 1;
  dropped_batches = c.dropped_batches + 1;
}
count_lost false c = record c { pending_messages = c.pending_messages + 1 }

-- What the queue's answer to a line leads to.
abbrev pub after_line : Bool → ℕ → Sent × Client → Bool × Client
after_line batch limit (taken, c) = (true, c)
after_line batch limit (full, c) = let c' = count_lost batch c in (leb c'.pending_batches limit, c')
after_line batch limit (disconnected, c) = (false, c)

abbrev pub offer_line : Line → Bool → ℕ → Client → Bool × Client
offer_line line batch limit c = after_line batch limit (try_send line c)

-- What the queue's answer to the notice of what was lost leads to.
abbrev pub after_notice : Line → Bool → ℕ → Sent × Client → Bool × Client
after_notice line batch limit (taken, c) =
    offer_line line batch limit (record c { pending_batches = 0; pending_messages = 0 })
after_notice line batch limit (full, c) = offer_line line batch limit c
after_notice line batch limit (disconnected, c) = (false, c)

-- Offer a line; `false` when the client should be disconnected.
unfoldable pub offer : Line → Bool → ℕ → Client → Bool × Client
unfolding try_send
offer line batch limit c =
    if c.alive
    then (if ltb 0 (c.pending_batches + c.pending_messages)
        then after_notice line batch limit
            (try_send (dropped c.pending_batches c.pending_messages) c)
        else offer_line line batch limit c)
    else (false, c)

abbrev pub kept_or_shut : Bool × Client → Client
kept_or_shut (true, c) = c
kept_or_shut (false, c) = record c { alive = false }

unfoldable pub broadcast : ℕ → Line → Bool → List Client → List Client
unfolding offer
broadcast limit line batch [] = []
broadcast limit line batch (c ∷ clients) =
    kept_or_shut (offer line batch limit c) ∷ broadcast limit line batch clients

unfoldable pub dropped_total : List Client → ℕ
dropped_total [] = 0
dropped_total (c ∷ clients) = c.dropped_batches + dropped_total clients
