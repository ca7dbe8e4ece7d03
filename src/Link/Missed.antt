-- ===== src/Link/Missed.antt =====
-- crates/studio-core/src/link.rs: the samples that are counted as missed.
use tuning_tools.Base.{ℕ, ◌+◌, ◌%◌, ◌^◌, ◌<◌, ◌≡◌, arith}
use tuning_tools.Link.Samples.{missed_between}

-- Of a sample whose number comes `n` behind the one that follows the last one, around the 16 bits, `n`
-- samples are counted as missed.
pub missed_between_lem :
    (last n : ℕ) → last < 2 ^ 16 → n < 2 ^ 16 → missed_between last ((last + 1 + n) % 2 ^ 16) ≡ n
unfolding missed_between
missed_between_lem last n h k = omega arith
