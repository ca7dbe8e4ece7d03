-- ===== src/Link/Tests.antt =====
-- A worker that samples one value, and the theorems about the link at it.
use tuning_tools.Base.{
  Bool, same_bytes, map, subst, Option, zero, suc, All, ℕ, ◌+◌, ◌≡◌, refl, true, false, none, some,
  List, [], ◌∷◌, arith,
}
use tuning_tools.Carrier
use tuning_tools.Float.Sample.{sample_floats}
use tuning_tools.Message.{Message, Except, ok}
use tuning_tools.Stats.{no_stats}
use tuning_tools.Ticker.{Ticker}
use tuning_tools.Wire.Reader.{read_u8, read_u16, read_u32, read_word, read_bytes, read_text}
use tuning_tools.Catalog.{Catalog, CellKind, kind_from_tag, access_from_tag}
use tuning_tools.Catalog.Read.Tests.{gain}
use tuning_tools.Session.{SessionCommand}
use tuning_tools.Link.{Pending, Worker, Subscription, Setting}
use tuning_tools.Base.Bytes.{IsByte}
use tuning_tools.Base.Dict.{lookup}
use tuning_tools.Link.Expired.{IsTimely, expire-IsTimely}
use tuning_tools.Link.Frames.{expire}
use tuning_tools.Link.Commands.{Tickers, Turn, on_command}
use tuning_tools.Link.Entry.{read_catalog}
use tuning_tools.Link.Entry.Pages.{read_catalog_total}
use tuning_tools.Link.Safe.{Safe}
use tuning_tools.Link.Handshake.{Reads, new_worker, spawn_link}
use tuning_tools.Link.Safe.Handshake.{spawn_link-Safe}
use tuning_tools.Wire
use tuning_tools.Wire.Cmd

-- The world is the list of the channels that were answered.
abbrev quiet : Setting
quiet = record {
  World = List ℕ;
  write_all = λ s bytes. (Carrier.ok tt, s);
  event = λ s e. s;
  samples = λ s batch. s;
  frame_taken = λ s bytes. (true, s);
  reply = λ s k r. k ∷ s;
  fl = sample_floats;
  ops = record {
    of_u64 = λ n. n;
    seconds = λ n. n;
    div = λ a b. a;
    mul = λ a b. a;
    is_positive = λ v. true;
  };
  millis = λ rate. 10;
  time_of = λ a b. a;
  lossy = λ bs. bs;
}

abbrev subscribed : Subscription
subscribed = record { watch_id = 5; kind = CellKind.f32; cell = 77 }

abbrev worker : Worker
worker = record {
  decoder = record { buf = []; bad_frames = 0 };
  seq = 3;
  token = 9;
  catalog = record { address = 0; symbol = []; entries = gain ∷ [] };
  pending = [];
  start = 0;
  rate_hz = 100;
  wanted = (5, 77) ∷ [];
  active = subscribed ∷ [];
  period_ms = 10;
  frame = record { ids = 5 ∷ []; times = []; values = [] };
  device_base = none;
  last_sample_seq = none;
  missed_samples = 0;
  values = [];
  link_stats = no_stats;
  device_dropped = 0;
  last_error = none;
}

abbrev every : ℕ → Ticker
every period = record { start = 0; period = period; next = 1; skipped = 0 }

abbrev tickers : Tickers
tickers = record {
  lease_tick = every 1000;
  tune_tick = every 1000;
  frame_tick = every 1000;
  stats_tick = every 1000;
}

-- A save is asked for, and then the end; the stream has noise.
abbrev turns : List Turn
turns =
    record {
      commands = (1, SessionCommand.save 4) ∷ (2, SessionCommand.read [] 6) ∷ [];
      closed = false;
      bytes = ok (1 ∷ 2 ∷ []);
      clock = λ n. 3 + n;
      now = 5;
    }
    ∷ record {
      commands = (6, SessionCommand.stop) ∷ [];
      closed = false;
      bytes = ok [];
      clock = λ n. 7;
      now = 8;
    }
    ∷ []

-- The firmware does not answer the first HELLO, and answers the second one with its version; nobody answers
-- the request for a lease.
abbrev hellos : ℕ → Reads
hellos zero = []
hellos (suc i) = Carrier.ok (or_empty (Wire.encode (Cmd.hello + Cmd.reply) 2 (0 ∷ 1 ∷ []))) ∷ []
  where
    or_empty : Option (List ℕ) → List ℕ
    or_empty none = []
    or_empty (some bytes) = bytes

spawn_link-Safe_example :
    Safe (spawn_link quiet (Carrier.ok tt) hellos [] [] turns tickers (new_worker 0 100 9, []))
spawn_link-Safe_example =
    spawn_link-Safe quiet (Carrier.ok tt) hellos [] [] turns tickers 0 100 9 []

-- A firmware whose catalog has two entries, and that sends one in a page.
abbrev catalog_page : ℕ → List ℕ
catalog_page id =
    2 ∷ 0 ∷ 1 ∷ id ∷ 0 ∷ 0 ∷ 0 ∷ 2 ∷ 0 ∷ 7 ∷ 0 ∷ 0 ∷ 0 ∷ 0 ∷ 0 ∷ 0 ∷ 0 ∷ 0 ∷ 0 ∷ 0 ∷ 0 ∷ 0 ∷ 0 ∷ 0
    ∷ 0 ∷ 1 ∷ 97 ∷ 0 ∷ []

abbrev answer_for : Bool → List ℕ
answer_for true = catalog_page 5
answer_for false = catalog_page 6

abbrev paging : List ℕ → Except Message (Option (List ℕ))
paging payload = ok (some (answer_for (same_bytes payload (0 ∷ 0 ∷ 255 ∷ []))))

answer-IsByte : (first : Bool) → All IsByte (answer_for first)
answer-IsByte true = (
  omega arith,
  (
    omega arith,
    (
      omega arith,
      (
        omega arith,
        (
          omega arith,
          (
            omega arith,
            (
              omega arith,
              (
                omega arith,
                (
                  omega arith,
                  (
                    omega arith,
                    (
                      omega arith,
                      (
                        omega arith,
                        (
                          omega arith,
                          (
                            omega arith,
                            (
                              omega arith,
                              (
                                omega arith,
                                (
                                  omega arith,
                                  (
                                    omega arith,
                                    (
                                      omega arith,
                                      (
                                        omega arith,
                                        (
                                          omega arith,
                                          (
                                            omega arith,
                                            (
                                              omega arith,
                                              (
                                                omega arith,
                                                (
                                                  omega arith,
                                                  (omega arith, (omega arith, (omega arith, tt))),
                                                ),
                                              ),
                                            ),
                                          ),
                                        ),
                                      ),
                                    ),
                                  ),
                                ),
                              ),
                            ),
                          ),
                        ),
                      ),
                    ),
                  ),
                ),
              ),
            ),
          ),
        ),
      ),
    ),
  ),
)
answer-IsByte false = (
  omega arith,
  (
    omega arith,
    (
      omega arith,
      (
        omega arith,
        (
          omega arith,
          (
            omega arith,
            (
              omega arith,
              (
                omega arith,
                (
                  omega arith,
                  (
                    omega arith,
                    (
                      omega arith,
                      (
                        omega arith,
                        (
                          omega arith,
                          (
                            omega arith,
                            (
                              omega arith,
                              (
                                omega arith,
                                (
                                  omega arith,
                                  (
                                    omega arith,
                                    (
                                      omega arith,
                                      (
                                        omega arith,
                                        (
                                          omega arith,
                                          (
                                            omega arith,
                                            (
                                              omega arith,
                                              (
                                                omega arith,
                                                (
                                                  omega arith,
                                                  (omega arith, (omega arith, (omega arith, tt))),
                                                ),
                                              ),
                                            ),
                                          ),
                                        ),
                                      ),
                                    ),
                                  ),
                                ),
                              ),
                            ),
                          ),
                        ),
                      ),
                    ),
                  ),
                ),
              ),
            ),
          ),
        ),
      ),
    ),
  ),
)

paging-IsByte : (payload body : List ℕ) → paging payload ≡ ok (some body) → All IsByte body
paging-IsByte payload body e =
    subst (All IsByte) (the_body e) (answer-IsByte (same_bytes payload (0 ∷ 0 ∷ 255 ∷ [])))
  where
    the_body :
        {x y : List ℕ}
        → ◌≡◌ {A = Except Message (Option (List ℕ))} (ok (some x)) (ok (some y))
        → x ≡ y
    the_body p = ground arith

abbrev found_ids : Option (Except Message Catalog) → List ℕ
found_ids (some (ok catalog)) = map (λ e. e.id) catalog.entries
found_ids r = []

reads_both_pages : found_ids (read_catalog sample_floats (λ bs. bs) paging) ≡ 5 ∷ 6 ∷ []
unfolding read_catalog read_u16 read_word read_bytes read_u8 read_u32 kind_from_tag access_from_tag
    read_text
reads_both_pages = refl

read_catalog_total_example :
    (r : Except Message Catalog) × (read_catalog sample_floats (λ bs. bs) paging ≡ some r)
read_catalog_total_example = read_catalog_total sample_floats (λ bs. bs) paging paging-IsByte

-- A read is refused, since only a probe can read memory.
read_is_refused : (on_command quiet 1 (SessionCommand.read [] 6) (worker, [])).1.1 ≡ 6 ∷ []
unfolding on_command
read_is_refused = refl

-- A save that waits since the second 1, and a read since 3.9, at the second 4.5.
abbrev waiting : Worker
waiting = record worker {
  pending = (1, (Pending.save 4, 1000000000)) ∷ (2, (Pending.read, 3900000000)) ∷ [];
}

expire-IsTimely_example :
    All (IsTimely quiet 4500000000) (expire quiet 4500000000 (waiting, [])).1.0.pending
expire-IsTimely_example = expire-IsTimely quiet 4500000000 waiting []

-- The one who asked for the save is told.
save_is_given_up : (expire quiet 4500000000 (waiting, [])).1.1 ≡ 4 ∷ []
unfolding expire lookup
save_is_given_up = refl
