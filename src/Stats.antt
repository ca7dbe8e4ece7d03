-- ===== src/Stats.antt =====
-- crates/studio-core/src/stats.rs: the statistics of a link, over a window of recent ticks. An instant is
-- its nanoseconds; `ops` is the arithmetic of `f64`.
mod Window
mod Tests
use tuning_tools.Base.{
  ℕ, zero, suc, ◌+◌, ◌-◌, ◌%◌, ◌^◌, min, max, Bool, true, false, ◌&&◌, Option, none, some, List, [],
  ◌∷◌, ◌++◌, length, get_or, drop, ltb, ◌==◌, if◌then◌else◌,
}
use tuning_tools.Float.{Arithmetic}

abbrev pub window : ℕ
window = 200

pub record LinkStats : Type 0 where
  -- In microseconds, most recent last.
  pub recent_read_us : List ℕ
  pub recent_ticks : List ℕ
  pub ticks : ℕ
  pub failed_regions : ℕ
  pub bytes : ℕ
  pub log_bytes : ℕ
  pub frames_sent : ℕ
  pub frames_dropped : ℕ

pub record StatsSnapshot : Type 0 where
  pub target_hz : ℕ
  pub achieved_hz : ℕ
  pub read_avg_us : ℕ
  pub read_max_us : ℕ
  pub jitter_us : ℕ
  pub skipped_ticks : ℕ
  pub failed_regions : ℕ
  pub regions : ℕ
  pub values : ℕ
  pub bytes_per_sec : ℕ
  pub log_bytes : ℕ
  pub frames_dropped : ℕ

-- `LinkStats::default()`.
abbrev pub no_stats : LinkStats
no_stats = record {
  recent_read_us = [];
  recent_ticks = [];
  ticks = 0;
  failed_regions = 0;
  bytes = 0;
  log_bytes = 0;
  frames_sent = 0;
  frames_dropped = 0;
}

-- One more at the end of a window, and the first one out where it has too many.
unfoldable pub push_recent : List ℕ → ℕ → Bool → List ℕ
push_recent recent x full = if full then drop 1 (recent ++ (x ∷ [])) else recent ++ (x ∷ [])

unfoldable pub record_tick : LinkStats → ℕ → ℕ → ℕ → ℕ → LinkStats
unfolding push_recent
record_tick s at read_us bytes failed_regions =
    let full = ltb window (length s.recent_read_us + 1) in
    record s {
      ticks = (s.ticks + 1) % 2 ^ 64;
      bytes = (s.bytes + bytes) % 2 ^ 64;
      failed_regions = (s.failed_regions + failed_regions) % 2 ^ 64;
      recent_read_us = push_recent s.recent_read_us read_us full;
      recent_ticks = push_recent s.recent_ticks at full;
    }

unfoldable pub restart_window : LinkStats → LinkStats
restart_window s = record s { recent_read_us = []; recent_ticks = [] }

-- The least and the greatest read time, from `u64::MAX` and 0.
unfoldable pub spread : ℕ → ℕ → List ℕ → ℕ × ℕ
spread lo hi [] = (lo, hi)
spread lo hi (v ∷ vs) = spread (min lo v) (max hi v) vs

unfoldable pub total : List ℕ → ℕ
total [] = 0
total (v ∷ vs) = v + total vs

module _ (ops : Arithmetic) where
  open ops use {of_u64, seconds, div, mul, is_positive}

  -- The ticks of the window but one, by the time between its first and its last.
  unfoldable pub achieved_hz : LinkStats → ℕ
  achieved_hz s =
      let n = length s.recent_ticks in
      let span = seconds (get_or s.recent_ticks (n - 1) 0 - get_or s.recent_ticks 0 0) in
      if ltb 1 n && is_positive span then div (of_u64 (n - 1)) span else of_u64 0

  unfoldable pub snapshot : LinkStats → ℕ → ℕ → ℕ → ℕ → StatsSnapshot
  unfolding spread total achieved_hz
  snapshot s target_hz skipped_ticks regions values =
      let n = length s.recent_read_us in
      let (lo, hi) = spread (2 ^ 64 - 1) 0 s.recent_read_us in
      let achieved = achieved_hz s in
      let avg_bytes = if s.ticks == 0 then of_u64 0 else div (of_u64 s.bytes) (of_u64 s.ticks) in
      record {
        target_hz = target_hz;
        achieved_hz = achieved;
        read_avg_us =
            if n == 0 then of_u64 0 else div (of_u64 (total s.recent_read_us % 2 ^ 64)) (of_u64 n);
        read_max_us = hi;
        jitter_us = if n == 0 then 0 else hi - lo;
        skipped_ticks = skipped_ticks;
        failed_regions = s.failed_regions;
        regions = regions;
        values = values;
        bytes_per_sec = mul avg_bytes achieved;
        log_bytes = s.log_bytes;
        frames_dropped = s.frames_dropped;
      }
