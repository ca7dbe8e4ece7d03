-- ===== src/Link/Safe/Handshake.antt =====
-- crates/studio-core/src/link.rs: a session over the framed link never panics, from its start to its end.
use tuning_tools.Base.{
  ℕ, zero, suc, refl, sym, subst, arith, Bool, true, false, Option, none, some, List, [], ◌∷◌,
  length, ◌≤◌, ◌==◌,
}
use tuning_tools.Base.Bytes.{to_le_bytes}
use tuning_tools.Carrier
use tuning_tools.Message.{Message, Except, ok, err}
use tuning_tools.Wire.Cmd
use tuning_tools.Wire.Feed.{feed_total}
use tuning_tools.Wire.Reader.{read_u8}
use tuning_tools.Batch.Builder.{HoldsRows}
use tuning_tools.Catalog.{Catalog, CatalogEntry}
use tuning_tools.Link.{Worker, Setting, Failure, Method, pure, send}
use tuning_tools.Link.Entry.{Round, page_request}
use tuning_tools.Link.Commands.{Turn, Tickers}
use tuning_tools.Link.Handshake.{
  Reads, new_worker, last_answer, failing, answer_body, answered_or, after_feed, after_read, await,
  call, greeted_or, hello, hello_attempts, versioned, protocol_version, granted, take_lease,
  after_round, take_pages, with_catalog, handshake, started, spawn_link,
}
use tuning_tools.Link.Safe.{Columns, Safe, AlwaysSafe, and_then-Safe, if_AlwaysSafe, send-Safe}
use tuning_tools.Link.Safe.Loop.{run-Safe}

module _ (env : Setting) where
  open env use {World, fl, lossy}

  answer_body-Safe : (payload : List ℕ) → AlwaysSafe (answer_body env payload)
  unfolding answer_body
  answer_body-Safe [] w s a = a
  answer_body-Safe (status ∷ body) w s a =
      if_AlwaysSafe (status == 0) (pure (some body)) (failing env (Message.refused status))
        (λ w s a. a) (λ w s a. a) w s a

  answered_or-Safe :
      (found : Option (List ℕ)) (next : Method World (Option (List ℕ)))
      → AlwaysSafe next
      → AlwaysSafe (answered_or env found next)
  answered_or-Safe none next h = h
  answered_or-Safe (some payload) next h = answer_body-Safe payload

  after_read-Safe :
      (code seq : ℕ) (r : Carrier.Result (List ℕ)) (next : Method World (Option (List ℕ)))
      → AlwaysSafe next
      → AlwaysSafe (after_read env code seq r next)
  after_read-Safe code seq (Carrier.err e) next h w s a = a
  after_read-Safe code seq (Carrier.ok bytes) next h w s a =
      let ((d, frames), e) = feed_total w.decoder bytes in
      subst (λ x. Safe (after_feed env code seq next x (w, s))) (sym e)
        (answered_or-Safe (last_answer code seq none frames) next h (record w { decoder = d }) s a)

  await-Safe : (code seq : ℕ) (reads : Reads) → AlwaysSafe (await env code seq reads)
  unfolding await
  await-Safe code seq [] w s a = a
  await-Safe code seq (r ∷ reads) w s a =
      after_read-Safe code seq r (await env code seq reads) (await-Safe code seq reads) w s a

  call-Safe :
      (code : ℕ) (payload : List ℕ) (reads : Reads)
      → length payload ≤ 256
      → AlwaysSafe (call env code payload reads)
  unfolding call
  call-Safe code payload reads h w s a =
      and_then-Safe (send env code payload (w, s)) _ (send-Safe env code payload h w s a)
        (λ seq. await-Safe code seq reads)

  hello-Safe : (n : ℕ) (reads : ℕ → Reads) → AlwaysSafe (hello env n reads)
  unfolding hello
  hello-Safe zero reads w s a = a
  hello-Safe (suc n) reads w s a =
      and_then-Safe (call env Cmd.hello [] (reads 0) (w, s)) _
        (call-Safe Cmd.hello [] (reads 0) (omega arith) w s a)
        (λ body. greeted_or-Safe body (hello-Safe n (λ i. reads (suc i))))
    where
      greeted_or-Safe :
          (body : Option (List ℕ))
          → AlwaysSafe (hello env n (λ i. reads (suc i)))
          → AlwaysSafe (greeted_or env body (hello env n (λ i. reads (suc i))))
      greeted_or-Safe none h w s a = h w s a
      greeted_or-Safe (some body) h w s a = a

  versioned-Safe : (v : Option (ℕ × List ℕ)) → AlwaysSafe (versioned env v)
  versioned-Safe none w s a = a
  versioned-Safe (some (version, rest)) w s a =
      if_AlwaysSafe (version == protocol_version) (pure tt) (failing env (Message.speaks version))
        (λ w s a. a) (λ w s a. a) w s a

  take_lease-Safe : (reads : Reads) → AlwaysSafe (take_lease env reads)
  unfolding take_lease
  take_lease-Safe reads w s a =
      and_then-Safe (call env Cmd.lease (to_le_bytes 4 w.token) reads (w, s)) _
        (call-Safe Cmd.lease (to_le_bytes 4 w.token) reads (omega arith) w s a) granted-Safe
    where
      granted-Safe : (body : Option (List ℕ)) → AlwaysSafe (granted env body)
      granted-Safe none w s a = a
      granted-Safe (some body) w s a = a

  after_round-Safe :
      (next : List CatalogEntry → Method World (Option Catalog)) (r : Round)
      → ((found : List CatalogEntry) → AlwaysSafe (next found))
      → AlwaysSafe (after_round env next r)
  after_round-Safe next (Round.returns (ok c)) h w s a = a
  after_round-Safe next (Round.returns (err m)) h w s a = a
  after_round-Safe next (Round.asks found) h w s a = h found w s a

  take_pages-Safe :
      (pages : List Reads) (found : List CatalogEntry) → AlwaysSafe (take_pages env pages found)
  unfolding take_pages
  take_pages-Safe [] found w s a = a
  take_pages-Safe (reads ∷ pages) found w s a =
      and_then-Safe (call env Cmd.catalog (page_request fl lossy found) reads (w, s)) _
        (call-Safe Cmd.catalog (page_request fl lossy found) reads (omega arith) w s a)
        (λ body. after_round-Safe (λ found'. take_pages env pages found') _ (take_pages-Safe pages))

  with_catalog-Safe : (c : Option Catalog) → AlwaysSafe (with_catalog env c)
  with_catalog-Safe none w s a = a
  with_catalog-Safe (some c) w s a = a

  handshake-Safe :
      (hellos : ℕ → Reads) (leases : Reads) (pages : List Reads)
      → AlwaysSafe (handshake env hellos leases pages)
  unfolding handshake
  handshake-Safe hellos leases pages w s a =
      and_then-Safe (hello env hello_attempts hellos (w, s)) _
        (hello-Safe hello_attempts hellos w s a)
        (λ body w s a.
          and_then-Safe (versioned env (read_u8 body) (w, s)) _
            (versioned-Safe (read_u8 body) w s a)
            (λ u w s a.
              and_then-Safe (take_lease env leases (w, s)) _ (take_lease-Safe leases w s a)
                (λ u w s a.
                  and_then-Safe (take_pages env pages [] (w, s)) _ (take_pages-Safe pages [] w s a)
                    with_catalog-Safe)))

  started-Safe :
      (turns : List Turn) (t : Tickers) (r : Except Failure Bool × (Worker × World))
      → Safe r
      → Safe (started env turns t r)
  started-Safe turns t (ok true, (w, s)) h = run-Safe env turns t w s h
  started-Safe turns t (ok false, s) h = h
  started-Safe turns t (err (Failure.fails m), s) h = h
  started-Safe turns t (err Failure.panics, s) h = absurd h

  -- A session over the framed link never panics, from its start to its end, whatever the stream gives to
  -- the handshake and to the loop, and whatever it is told; its frame keeps a column for each active
  -- subscription.
  pub spawn_link-Safe :
      (connected : Carrier.Result (Unit {0})) (hellos : ℕ → Reads) (leases : Reads)
      (pages : List Reads) (turns : List Turn) (t : Tickers) (start rate_hz token : ℕ) (s : World)
      → Safe
          (spawn_link env connected hellos leases pages turns t (new_worker start rate_hz token, s))
  unfolding spawn_link new_worker Columns HoldsRows
  spawn_link-Safe (Carrier.err e) hellos leases pages turns t start rate_hz token s =
      (([], tt, refl, refl), refl)
  spawn_link-Safe (Carrier.ok u) hellos leases pages turns t start rate_hz token s =
      started-Safe turns t _ (
        handshake-Safe hellos leases pages (new_worker start rate_hz token) _
          (([], tt, refl, refl), refl))
