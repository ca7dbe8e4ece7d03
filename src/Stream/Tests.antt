-- ===== src/Stream/Tests.antt =====
-- A client that missed a batch, and the theorems about the stream at it.
use tuning_tools.Base.{◌+◌, ◌≤◌, ◌≡◌, refl, true, false, none, [], ◌∷◌, All, length, arith}
use tuning_tools.Batch.{SampleBatch}
use tuning_tools.Session.{LinkState}
use tuning_tools.Stream.{Line, Client, offer, try_send}
use tuning_tools.Stream.Told.{batches_in, known, offer-known}
use tuning_tools.Stream.Fanout.{Fanout, reap, dropped_by_all}
use tuning_tools.Stream.Fanout.Reaped.{IsAlive, reap-All}

abbrev batch : SampleBatch
batch = record { ids = []; times = []; values = [] }

abbrev behind : Client
behind = record {
  queue = Line.log [] ∷ [];
  capacity = 2;
  is_open = true;
  alive = true;
  pending_batches = 3;
  pending_messages = 1;
  dropped_batches = 5;
}

-- The notice takes the last place, so the batch is lost too.
is_told : (offer (Line.samples 9 batch []) true 10 behind).1.pending_batches ≡ 1
unfolding offer try_send
is_told = refl

offer-known_example :
    (known (offer (Line.samples 9 batch []) true 10 behind).1 ≡ 3 + 1)
    × (length (offer (Line.samples 9 batch []) true 10 behind).1.queue
        ≤ (offer (Line.samples 9 batch []) true 10 behind).1.capacity)
unfolding batches_in
offer-known_example =
    offer-known (Line.samples 9 batch []) true 10 behind refl refl (omega arith) refl

abbrev fanout : Fanout
fanout = record {
  client_queue = 256;
  drop_limit = 150;
  clients = record behind { alive = false } ∷ behind ∷ [];
  watches = [];
  info = none;
  link = LinkState.connected;
  clock = none;
  check = none;
  names = [];
  tune = [];
  seq = 0;
  dropped_gone = 2;
  tap_dropped = 0;
}

reap-All_example :
    All IsAlive (reap fanout).clients × (dropped_by_all (reap fanout) ≡ dropped_by_all fanout)
reap-All_example = reap-All fanout
