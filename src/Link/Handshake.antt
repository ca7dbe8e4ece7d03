-- ===== src/Link/Handshake.antt =====
-- crates/studio-core/src/link.rs: how a session over the framed link starts, up to its worker's loop.
use tuning_tools.Base.{
  ℕ, zero, suc, ◌+◌, Bool, true, false, ◌&&◌, Option, none, some, List, [], ◌∷◌, ◌==◌,
  if◌then◌else◌,
}
use tuning_tools.Base.Bytes.{to_le_bytes}
use tuning_tools.Carrier
use tuning_tools.Message.{Message, Except, ok, err}
use tuning_tools.Wire
use tuning_tools.Wire.{Frame, Decoder, feed}
use tuning_tools.Wire.Cmd
use tuning_tools.Wire.Reader.{read_u8}
use tuning_tools.Catalog.{Catalog, CatalogEntry}
use tuning_tools.Stats.{no_stats}
use tuning_tools.Session.{SessionEvent, LinkState}
use tuning_tools.Link.{Worker, Setting, Failure, Method, ◌>>=◌, ◌>>◌, pure, modify, tell, send}
use tuning_tools.Link.Entry.{Round, after_call, page_request}
use tuning_tools.Link.Commands.{Turn, Tickers, run}

abbrev pub hello_attempts : ℕ
hello_attempts = 3

abbrev pub protocol_version : ℕ
protocol_version = 1

-- "firmware catalog".
abbrev pub firmware_catalog : List ℕ
firmware_catalog =
    102 ∷ 105 ∷ 114 ∷ 109 ∷ 119 ∷ 97 ∷ 114 ∷ 101 ∷ 32 ∷ 99 ∷ 97 ∷ 116 ∷ 97 ∷ 108 ∷ 111 ∷ 103 ∷ []

-- What the reads of the stream give until a call's time is over.
abbrev pub Reads : Type 0
Reads = List (Carrier.Result (List ℕ))

-- The worker that a handshake starts with.
unfoldable pub new_worker : ℕ → ℕ → ℕ → Worker
new_worker start rate_hz token = record {
  decoder = Wire.empty;
  seq = 0;
  token = token;
  catalog = record { address = 0; symbol = []; entries = [] };
  pending = [];
  start = start;
  rate_hz = rate_hz;
  wanted = [];
  active = [];
  period_ms = 0;
  frame = record { ids = []; times = []; values = [] };
  device_base = none;
  last_sample_seq = none;
  missed_samples = 0;
  values = [];
  link_stats = no_stats;
  device_dropped = 0;
  last_error = none;
}

abbrev pub is_answer : ℕ → ℕ → Frame → Bool
is_answer code seq f = f.cmd == code + Cmd.reply && f.seq == seq

-- The last payload that answers the request, of the frames of a read.
unfoldable pub last_answer : ℕ → ℕ → Option (List ℕ) → List Frame → Option (List ℕ)
last_answer code seq found [] = found
last_answer code seq found (f ∷ fs) =
    last_answer code seq (if is_answer code seq f then some f.payload else found) fs

module _ (env : Setting) where
  open env use {World, event, fl, lossy}

  abbrev pub failing : {A : Type 0} → Message → Method World A
  failing m s = (err (Failure.fails m), s)

  -- The body of an answer that is no refusal.
  unfoldable pub answer_body : List ℕ → Method World (Option (List ℕ))
  answer_body [] = failing Message.empty_reply
  answer_body (status ∷ body) =
      if status == 0 then pure (some body) else failing (Message.refused status)

  abbrev pub answered_or :
      Option (List ℕ) → Method World (Option (List ℕ)) → Method World (Option (List ℕ))
  answered_or none next = next
  answered_or (some payload) next = answer_body payload

  abbrev pub after_feed :
      ℕ
      → ℕ
      → Method World (Option (List ℕ))
      → Option (Decoder × List Frame)
      → Method World (Option (List ℕ))
  after_feed code seq next none s = (err Failure.panics, s)
  after_feed code seq next (some (d, frames)) (w, s) =
      answered_or (last_answer code seq none frames) next (record w { decoder = d }, s)

  -- A read of the stream in a call; `feed` has the fuel that it needs.
  abbrev pub after_read :
      ℕ
      → ℕ
      → Carrier.Result (List ℕ)
      → Method World (Option (List ℕ))
      → Method World (Option (List ℕ))
  after_read code seq (Carrier.err e) next s = failing (Message.carrier e) s
  after_read code seq (Carrier.ok bytes) next (w, s) =
      after_feed code seq next (feed w.decoder bytes) (w, s)

  unfoldable pub await : ℕ → ℕ → Reads → Method World (Option (List ℕ))
  unfolding answer_body last_answer
  await code seq [] = pure none
  await code seq (r ∷ reads) = after_read code seq r (await code seq reads)

  -- Send a request and wait for its reply's body; none is a timeout.
  unfoldable pub call : ℕ → List ℕ → Reads → Method World (Option (List ℕ))
  unfolding await
  call code payload reads = do seq ← send env code payload; await code seq reads

  abbrev pub greeted_or : Option (List ℕ) → Method World (List ℕ) → Method World (List ℕ)
  greeted_or none next = next
  greeted_or (some body) next = pure body

  -- So many attempts at HELLO, each with its reads.
  unfoldable pub hello : ℕ → (ℕ → Reads) → Method World (List ℕ)
  unfolding call
  hello zero reads = failing Message.no_firmware
  hello (suc n) reads = do
    body ← call Cmd.hello [] (reads 0)
    greeted_or body (hello n (λ i. reads (suc i)))

  abbrev pub versioned : Option (ℕ × List ℕ) → Method World (Unit {0})
  versioned none = failing Message.short_hello
  versioned (some (version, rest)) =
      if version == protocol_version then pure tt else failing (Message.speaks version)

  abbrev pub granted : Option (List ℕ) → Method World (Unit {0})
  granted none = failing Message.no_lease
  granted (some body) = pure tt

  unfoldable pub take_lease : Reads → Method World (Unit {0})
  unfolding call
  take_lease reads (w, s) =
      (do body ← call Cmd.lease (to_le_bytes 4 w.token) reads; granted body) (w, s)

  abbrev pub after_round :
      (List CatalogEntry → Method World (Option Catalog)) → Round → Method World (Option Catalog)
  after_round next (Round.returns (ok c)) = pure (some c)
  after_round next (Round.returns (err m)) = failing m
  after_round next (Round.asks found) = next found

  -- `read_catalog` over the reads of each page; none where it still asks behind them.
  unfoldable pub take_pages : List Reads → List CatalogEntry → Method World (Option Catalog)
  unfolding call after_call
  take_pages [] found = pure none
  take_pages (reads ∷ pages) found = do
    body ← call Cmd.catalog (page_request fl lossy found) reads
    after_round (λ found'. take_pages pages found') (after_call fl lossy found (ok body))

  abbrev pub with_catalog : Option Catalog → Method World Bool
  with_catalog none = pure false
  with_catalog (some c) = do
    modify (λ w. record w { catalog = record c { symbol = firmware_catalog } })
    tell (λ s. event s (SessionEvent.status LinkState.connected none))
    λ (w, s). (ok true, (w, event s (SessionEvent.catalog w.catalog)))

  -- Whether the worker is ready, and not still reading the catalog.
  unfoldable pub handshake : (ℕ → Reads) → Reads → List Reads → Method World Bool
  unfolding hello take_lease take_pages
  handshake hellos leases pages = do
    body ← hello hello_attempts hellos
    versioned (read_u8 body)
    take_lease leases
    c ← take_pages pages []
    with_catalog c

  abbrev pub run_ready : List Turn → Tickers → Bool → Method World (Unit {0})
  run_ready turns t true = run env turns t
  run_ready turns t false = pure tt

  -- The failure of a connection or of its handshake is told; the loop tells its own.
  abbrev pub started :
      List Turn
      → Tickers
      → Except Failure Bool × (Worker × World)
      → Except Failure (Unit {0}) × (Worker × World)
  started turns t (ok ready, s) = run_ready turns t ready s
  started turns t (err (Failure.fails m), (w, s)) =
      (ok tt, (w, event s (SessionEvent.status LinkState.failed (some m))))
  started turns t (err Failure.panics, s) = (err Failure.panics, s)

  -- `spawn_link`'s thread, from the stream's opening on.
  unfoldable pub spawn_link :
      Carrier.Result (Unit {0})
      → (ℕ → Reads)
      → Reads
      → List Reads
      → List Turn
      → Tickers
      → Method World (Unit {0})
  unfolding handshake run
  spawn_link connected hellos leases pages turns t (w, s) =
      let s' = event s (SessionEvent.status LinkState.connecting none) in
      elim connected [
        | Carrier.err e ↦
            (ok tt, (w, event s' (SessionEvent.status LinkState.failed (some (Message.carrier e)))))
        | Carrier.ok u ↦ started turns t (handshake hellos leases pages (w, s'))
      ]
