-- ===== src/Link/Safe.antt =====
-- crates/studio-core/src/link.rs: no method of the worker panics, as long as the frame has a column for each
-- active subscription and its rows are whole.
pub mod Frames
pub mod Loop
pub mod Handshake
use tuning_tools.Base.{
  ℕ, ◌+◌, ◌≤◌, ◌≡◌, refl, sym, ap, ◌∙◌, arith, Bool, true, false, Option, none, some, List, [], ◌∷◌,
  ◌++◌, map, length, length-append, length-take, length-map, take, drop, All, leb, zero, suc, ◌*◌,
  if◌then◌else◌, min, ltb, Bool-cases, inl, inr,
}
use tuning_tools.Base.Bytes.{to_le_bytes, length-to_le_bytes}
use tuning_tools.Carrier
use tuning_tools.Message.{Message, Except, ok, err}
use tuning_tools.Wire
use tuning_tools.Wire.Cmd
use tuning_tools.Batch.{FrameBuilder}
use tuning_tools.Batch.Builder.{HoldsRows}
use tuning_tools.Link.{
  Worker, Pending, Subscription, Setting, Failure, Method, and_then, ◌>>=◌, wrote, write_frame,
  send, request, subscribe, request_reads, poll_values, cell_words, chunks, subscriptions,
  wanted_subs, watch_payload, read_chunk, max_watches, known_values, period_for, sampled_every,
  or_else, next_seq, ids_of,
}

-- The frame's columns are the active subscriptions, and its rows are whole.
unfoldable pub Columns : FrameBuilder → List Subscription → Type 0
Columns frame active = HoldsRows frame × (frame.ids ≡ map (λ x. x.watch_id) active)

abbrev pub Aligned : Worker → Type 0
Aligned w = Columns w.frame w.active

-- An outcome that is no panic, with an aligned worker.
abbrev pub Safe : {W A : Type 0} → Except Failure A × (Worker × W) → Type 0
Safe (ok a, (w, s)) = Aligned w
Safe (err (Failure.fails m), (w, s)) = Aligned w
Safe (err Failure.panics, s) = ⊥

abbrev pub AlwaysSafe : {W A : Type 0} → Method W A → Type 0
AlwaysSafe {W = W} m = (w : Worker) (s : W) → Aligned w → Safe (m (w, s))

pub and_then-Safe :
    {W A B : Type 0} (r : Except Failure A × (Worker × W)) (f : A → Method W B)
    → Safe r
    → ((a : A) → AlwaysSafe (f a))
    → Safe (and_then r f)
and_then-Safe (ok a, (w, s)) f h k = k a w s h
and_then-Safe (err (Failure.fails m), s) f h k = h
and_then-Safe (err Failure.panics, s) f h k = absurd h

pub if_Safe :
    {W A : Type 0} (b : Bool) (r r' : Except Failure A × (Worker × W))
    → Safe r
    → Safe r'
    → Safe (if b then r else r')
if_Safe true r r' h h' = h
if_Safe false r r' h h' = h'

pub if_AlwaysSafe :
    {W A : Type 0} (b : Bool) (m m' : Method W A)
    → AlwaysSafe m
    → AlwaysSafe m'
    → AlwaysSafe (if b then m else m')
if_AlwaysSafe true m m' h h' = h
if_AlwaysSafe false m m' h h' = h'

pub if_Aligned : (b : Bool) (w w' : Worker) → Aligned w → Aligned w' → Aligned (if b then w else w')
if_Aligned true w w' h h' = h
if_Aligned false w w' h h' = h'

pub length-cell_words : (ids : List ℕ) → length (cell_words ids) ≡ 4 * length ids
unfolding cell_words
length-cell_words [] = omega arith
length-cell_words (id ∷ ids) = omega (arith, length-cell_words ids)

module _ (env : Setting) where
  open env use {World}

  wrote-Safe :
      (w : Worker) (r : Carrier.Result (Unit {0}) × World) → Aligned w → Safe (wrote env w r)
  wrote-Safe w (Carrier.ok u, s) h = h
  wrote-Safe w (Carrier.err e, s) h = h

  encode-fits :
      (cmd seq : ℕ) (payload : List ℕ)
      → length payload ≤ 256
      → (bytes : List ℕ) × (Wire.encode cmd seq payload ≡ some bytes)
  unfolding Wire.encode
  encode-fits cmd seq payload h =
      let fits : leb (length payload) 256 ≡ true = ground arith in
      let body = Wire.encode_body cmd seq payload in
      (body ++ to_le_bytes 2 (Wire.crc16 body), rw fits refl)

  pub send-Safe :
      (code : ℕ) (payload : List ℕ) → length payload ≤ 256 → AlwaysSafe (send env code payload)
  unfolding send write_frame
  send-Safe code payload h w s a =
      let (bytes, e) = encode-fits code (next_seq w.seq) payload h in
      let w' = record w { seq = next_seq w.seq } in
      rw e (
        and_then-Safe (wrote env w' (env.write_all s bytes)) _
          (wrote-Safe w' (env.write_all s bytes) a) (λ u w s a. a))

  pub request-Safe :
      (now code : ℕ) (payload : List ℕ) (p : Pending)
      → length payload ≤ 256
      → AlwaysSafe (request env now code payload p)
  unfolding request
  request-Safe now code payload p h w s a =
      and_then-Safe (send env code payload (w, s)) _ (send-Safe code payload h w s a)
        (λ seq w s a. a)

  few_subs : (w : Worker) → length (wanted_subs env w) ≤ 32
  few_subs w = ground (arith, length-take max_watches (subscriptions w.catalog w.wanted))

  pub subscribe-Safe : (now : ℕ) (period : Option ℕ) → AlwaysSafe (subscribe env now period)
  unfolding subscribe
  subscribe-Safe now period w s a =
      let subs = wanted_subs env w in
      let every = sampled_every env (or_else period (period_for env w.rate_hz)) subs in
      request-Safe now Cmd.watch (watch_payload env every subs) (Pending.watch subs every)
        (omega (
          arith,
          few_subs w,
          length-map subs (λ x. x.cell),
          length-cell_words (map (λ x. x.cell) subs),
        ))
        _ s (if_Aligned (ltb max_watches (length w.wanted)) _ w a a)

  request_reads-Safe :
      (now : ℕ) (css : List (List ℕ))
      → All (λ ids. length ids ≤ read_chunk) css
      → AlwaysSafe (request_reads env now css)
  unfolding request_reads
  request_reads-Safe now [] h w s a = a
  request_reads-Safe now (ids ∷ css) h w s a =
      and_then-Safe (request env now Cmd.read (length ids ∷ cell_words ids) Pending.read (w, s)) _
        (request-Safe now Cmd.read (length ids ∷ cell_words ids) Pending.read
          (omega (arith, length-cell_words ids, h.0)) w s a)
        (λ u. request_reads-Safe now css h.1)

  chunks-small : (n : ℕ) (ids : List ℕ) → All (λ ids. length ids ≤ read_chunk) (chunks n ids)
  unfolding chunks
  chunks-small zero ids = tt
  chunks-small (suc n) [] = tt
  chunks-small (suc n) (id ∷ ids) =
      (ground (arith, length-take 19 ids), chunks-small n (drop read_chunk (id ∷ ids)))

  pub poll_values-Safe : (now : ℕ) → AlwaysSafe (poll_values env now)
  unfolding poll_values
  poll_values-Safe now w s a =
      let ids = ids_of env w.catalog in
      and_then-Safe (request_reads env now (chunks (length ids) ids) (w, s)) _
        (request_reads-Safe now (chunks (length ids) ids) (chunks-small (length ids) ids) w s a)
        (λ u w s a. a)
