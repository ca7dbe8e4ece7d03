-- ===== src/Ticker.antt =====
-- crates/studio-core/src/schedule.rs: the ticker with absolute deadlines. An `Instant` is the number
-- of nanoseconds since a fixed time before the start, and a `Duration` a number of nanoseconds.
mod Polls
mod Wrap
mod Tests
use tuning_tools.Base.{
  ℕ, ◌+◌, ◌-◌, ◌*◌, ◌/◌, ◌%◌, ◌^◌, Bool, true, false, Option, none, some, ltb, ◌==◌, if◌then◌else◌,
}

pub record Ticker : Type 0 where
  pub start : ℕ
  pub period : ℕ
  pub next : ℕ
  pub skipped : ℕ

-- `none` is the panic of the assertion that the period is positive.
unfoldable pub new : ℕ → ℕ → Option Ticker
new start period =
    if period == 0
    then none
    else some (record { start = start; period = period; next = 0; skipped = 0 })

-- `next as u32` keeps the low 32 bits.
unfoldable pub deadline : Ticker → ℕ
deadline t = t.start + t.period * (t.next % 2 ^ 32)

-- The tick that is due at `now`, a `u64`.
abbrev pub due_at : Ticker → ℕ → ℕ
due_at t now = (now - t.start) / t.period % 2 ^ 64

unfoldable pub poll : Ticker → ℕ → Bool × Ticker
unfolding deadline
poll t now = if ltb now (deadline t) then (false, t) else (
  true,
  record t {
    next = (due_at t now + 1) % 2 ^ 64;
    skipped = (t.skipped + (due_at t now - t.next)) % 2 ^ 64;
  },
)
