-- ===== src/Ticker/Wrap.antt =====
-- Behind 2 ^ 32 ticks: `deadline` truncates the tick number to 32 bits, and `poll` does not.
use tuning_tools.Base.{ℕ, ◌+◌, ◌-◌, ◌*◌, ◌/◌, ◌%◌, ◌^◌, ◌≤◌, ◌<◌, ◌≡◌, true, false, ltb, arith}
use tuning_tools.Ticker.{Ticker, poll}

due-eq : (e p n : ℕ) → 0 < p → p * n ≤ e → e < p * (n + 1) → e / p ≡ n
due-eq e p n h lo hi = grind arith

mul_mono : (p a b : ℕ) → a ≤ b → p * a ≤ p * b
mul_mono p a b h = grind arith

-- Once 2 ^ 32 ticks were passed, a poll in the period before the next tick answers `true` and leaves
-- the ticker as it was: so does every further poll in that period.
pub poll_stuck :
    (t : Ticker) (now : ℕ)
    → 0 < t.period
    → 2 ^ 32 ≤ t.next
    → t.next < 2 ^ 64
    → t.skipped < 2 ^ 64
    → t.start + t.period * (t.next - 1) ≤ now
    → now < t.start + t.period * t.next
    → poll t now ≡ (true, t)
unfolding poll
poll_stuck t now pos far near small lo hi =
    let behind = mul_mono t.period (t.next % 2 ^ 32) (t.next - 1) (omega arith) in
    let passed : ltb now (t.start + t.period * (t.next % 2 ^ 32)) ≡ false = ground arith in
    let step : t.next - 1 + 1 ≡ t.next = omega arith in
    let tick : (now - t.start) / t.period ≡ t.next - 1 =
      due-eq (now - t.start) t.period (t.next - 1) pos (omega arith) (rw step (omega arith)) in
    let next : ((t.next - 1) % 2 ^ 64 + 1) % 2 ^ 64 ≡ t.next = omega arith in
    let skips : (t.skipped + ((t.next - 1) % 2 ^ 64 - t.next)) % 2 ^ 64 ≡ t.skipped = omega arith in
    rw (passed, tick, next, skips)
