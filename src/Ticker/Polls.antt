-- ===== src/Ticker/Polls.antt =====
-- What a poll answers, and what a run of polls adds up to.
use tuning_tools.Base.{
  ℕ, ◌+◌, ◌-◌, ◌*◌, ◌/◌, ◌%◌, ◌^◌, ◌≤◌, ◌<◌, ◌≡◌, refl, true, false, List, [], ◌∷◌, arith,
  if◌then◌else◌, Bool-cases, inl, inr, ltb, All, ◌⊎◌,
}
use tuning_tools.Ticker.{Ticker, deadline, due_at, poll}

-- The ticker's period is positive, and its counts are far from their widths.
pub record IsValid (t : Ticker) : Type 0 where
  pub positive : 0 < t.period
  pub near : t.next < 2 ^ 32
  pub counted : t.skipped ≤ t.next

-- `now` is at or after the start, and fewer than 2 ^ 32 - 1 periods behind it.
abbrev pub InRange : Ticker → ℕ → Type 0
InRange t now = (t.start ≤ now) × (now < t.start + t.period * (2 ^ 32 - 1))

due-lt : (e p k : ℕ) → 0 < p → e < p * k → e / p < k
due-lt e p k h lt = grind arith

due-bounds : (e p : ℕ) → 0 < p → (p * (e / p) ≤ e) × (e < p * (e / p + 1))
due-bounds e p h = (grind arith, grind arith)

next-le-due : (e p n : ℕ) → 0 < p → p * n ≤ e → n ≤ e / p
next-le-due e p n h le = grind arith

-- The tick of a time in range is exact, and so is the deadline behind it.
due_at-lt : (t : Ticker) (now : ℕ) → IsValid t → InRange t now → due_at t now < 2 ^ 32 - 1
due_at-lt t now v r =
    let small = due-lt (now - t.start) t.period (2 ^ 32 - 1) v.positive (omega arith) in
    omega (arith, small)

due_at-bounds :
    (t : Ticker) (now : ℕ)
    → IsValid t
    → InRange t now
    → (t.start + t.period * due_at t now ≤ now) × (now < t.start + t.period * (due_at t now + 1))
due_at-bounds t now v r =
    let small = due-lt (now - t.start) t.period (2 ^ 32 - 1) v.positive (omega arith) in
    let same : due_at t now ≡ (now - t.start) / t.period = omega arith in
    let (lo, hi) = due-bounds (now - t.start) t.period v.positive in
    rw same (omega arith, omega arith)

next-le-due_at :
    (t : Ticker) (now : ℕ) → IsValid t → InRange t now → deadline t ≤ now → t.next ≤ due_at t now
unfolding deadline
next-le-due_at t now v r h =
    let near = v.near in
    let whole : t.next % 2 ^ 32 ≡ t.next = omega arith in
    let h' : t.start + t.period * t.next ≤ now = rw whole at h in
    let small = due-lt (now - t.start) t.period (2 ^ 32 - 1) v.positive (omega arith) in
    omega (arith, next-le-due (now - t.start) t.period t.next v.positive (omega arith))

-- For a ticker with a period, whose next tick is below 2 ^ 32 and has as many skipped ones before it at
-- most, at a time not before its start and fewer than 2 ^ 32 - 1 periods behind it: a poll before the
-- deadline answers `false` and changes nothing. A poll at or after it answers
-- `true`; every tick number from the old `next` to the new one was either served, by this poll, or
-- counted as skipped; and the next deadline is ahead, by at most one period.
pub poll-deadline :
    (t : Ticker) (now : ℕ)
    → IsValid t
    → InRange t now
    → ((now < deadline t) × (poll t now ≡ (false, t)))
      ⊎ ((deadline t ≤ now)
          × ((poll t now).0 ≡ true)
          × ((poll t now).1.next + t.skipped ≡ (poll t now).1.skipped + t.next + 1)
          × (now < deadline (poll t now).1)
          × (deadline (poll t now).1 ≤ now + t.period)
          × IsValid (poll t now).1)
unfolding poll
poll-deadline t now v r = elim (Bool-cases (ltb now (deadline t))) [
  | inl early ↦ inl (ground arith, rw early)
  | inr late ↦
      let h : deadline t ≤ now = ground arith in
      let ahead = next-le-due_at t now v r h in
      let small = due_at-lt t now v r in
      let (lo, hi) = due_at-bounds t now v r in
      let counted = v.counted in
      let near : (due_at t now + 1) % 2 ^ 64 % 2 ^ 32 ≡ due_at t now + 1 = omega arith in
      let next : (due_at t now + 1) % 2 ^ 64 ≡ due_at t now + 1 = omega arith in
      let skips : (t.skipped + (due_at t now - t.next)) % 2 ^ 64
          ≡ t.skipped + (due_at t now - t.next) =
        omega arith in
      inr (
        rw late (
          h,
          refl,
          omega (arith, next, skips),
          rw near hi,
          rw near (omega arith),
          record {
            positive = v.positive;
            near = omega arith;
            counted = omega (arith, next, skips);
          },
        ))
]

-- The answers of a run of polls: how many were `true`, and the ticker behind them.
pub run : Ticker → List ℕ → ℕ × Ticker
run t [] = (0, t)
run t (now ∷ times) =
    let rest = run (poll t now).1 times in (if (poll t now).0 then (rest.0 + 1, rest.1) else rest)

-- Every time of the list is in range.
abbrev pub AllInRange : Ticker → List ℕ → Type 0
AllInRange t = All (InRange t)

poll-frame :
    (t : Ticker) (now : ℕ) → ((poll t now).1.start ≡ t.start) × ((poll t now).1.period ≡ t.period)
unfolding poll
poll-frame t now = ground arith

AllInRange-poll :
    (t : Ticker) (now : ℕ) (times : List ℕ) → AllInRange t times → AllInRange (poll t now).1 times
AllInRange-poll t now [] h = tt
AllInRange-poll t now (x ∷ xs) h =
    let (a, b) = poll-frame t now in (rw (a, b) h.0, AllInRange-poll t now xs h.1)

-- Over any run of polls in range, in whatever order, the ticks served and the ticks counted as
-- skipped add up to the tick numbers passed.
pub run-counts :
    (t : Ticker) (times : List ℕ)
    → IsValid t
    → AllInRange t times
    → (run t times).0 + (run t times).1.skipped + t.next ≡ (run t times).1.next + t.skipped
unfolding run
run-counts t [] v r = omega arith
run-counts t (now ∷ times) v r = elim (poll-deadline t now v r.0) [
  | inl (early, same) ↦ rw same (run-counts t times v r.1)
  | inr (late, served, counted, ahead, close, v') ↦
      let rest = run-counts (poll t now).1 times v' (AllInRange-poll t now times r.1) in
      rw served (omega arith)
]
