-- ===== src/Stats/Window.antt =====
-- The window holds the most recent ticks.
use tuning_tools.Base.{
  ℕ, zero, suc, ◌+◌, ◌-◌, ◌≤◌, ◌≡◌, refl, ap, ◌∙◌, min, max, arith, false, List, [], ◌∷◌, ◌++◌, map,
  length, drop, length-append, length-drop, drop-append, append_assoc, append-nil, ltb,
  if◌then◌else◌, Bool-cases, inl, inr, ◌==◌, ◌^◌, All, All-map,
}
use tuning_tools.Float.{Arithmetic}
use tuning_tools.Stats.{LinkStats, push_recent, record_tick, restart_window, spread, snapshot}

-- A tick, by its instant, its read time in microseconds, its bytes and its failed regions.
pub record Tick : Type 0 where
  pub at : ℕ
  pub read_us : ℕ
  pub bytes : ℕ
  pub failed_regions : ℕ

pub record_all : LinkStats → List Tick → LinkStats
record_all s [] = s
record_all s (t ∷ ts) = record_all (record_tick s t.at t.read_us t.bytes t.failed_regions) ts

-- The last 200 of a list.
abbrev pub recent : List ℕ → List ℕ
recent xs = drop (length xs - 200) xs

drop-drop : {A : Type 0} (m n : ℕ) (xs : List A) → drop m (drop n xs) ≡ drop (n + m) xs
drop-drop m zero xs = let e : 0 + m ≡ m = omega arith in rw e
drop-drop zero (suc n) [] = let e : suc n + 0 ≡ suc n = omega arith in rw e
drop-drop (suc m) (suc n) [] = let e : suc n + suc m ≡ suc (n + suc m) = omega arith in rw e
drop-drop m (suc n) (x ∷ xs) =
    let e : suc n + m ≡ suc (n + m) = omega arith in rw e (drop-drop m n xs)

-- A push keeps a window the last 200 of all that went in.
push_recent-recent :
    (xs : List ℕ) (x : ℕ)
    → push_recent (recent xs) x (ltb 200 (length (recent xs) + 1)) ≡ recent (xs ++ (x ∷ []))
unfolding push_recent
push_recent-recent xs x =
    let all = length-append xs (x ∷ []) in
    let kept = length-drop (length xs - 200) xs in
    let seam = drop-append (length xs - 200) xs (x ∷ []) (omega arith) in
    elim (Bool-cases (ltb 200 (length (recent xs) + 1))) [
      | inl full ↦
          let more : length (xs ++ (x ∷ [])) - 200 ≡ length xs - 200 + 1 = ground arith in
          rw (full, more, ← seam) (drop-drop 1 (length xs - 200) (xs ++ (x ∷ [])))
      | inr room ↦
          let none_out : length (xs ++ (x ∷ [])) - 200 ≡ 0 = ground arith in
          let none_yet : length xs - 200 ≡ 0 = ground arith in rw (room, none_out, none_yet)
    ]

record_all-from :
    (s : LinkStats) (ts : List Tick) (xs ys : List ℕ)
    → length xs ≡ length ys
    → s.recent_read_us ≡ recent xs
    → s.recent_ticks ≡ recent ys
    → ((record_all s ts).recent_read_us ≡ recent (xs ++ map (λ t. t.read_us) ts))
      × ((record_all s ts).recent_ticks ≡ recent (ys ++ map (λ t. t.at) ts))
unfolding record_all record_tick
record_all-from s [] xs ys same h k = rw (append-nil xs, append-nil ys) (h, k)
record_all-from s (t ∷ ts) xs ys same h k =
    let together : length (recent xs) ≡ length (recent ys) =
      omega (arith, length-drop (length xs - 200) xs, length-drop (length ys - 200) ys) in
    let reads : push_recent s.recent_read_us t.read_us (ltb 200 (length s.recent_read_us + 1))
        ≡ recent (xs ++ (t.read_us ∷ [])) =
      ap (λ (r : List ℕ). push_recent r t.read_us (ltb 200 (length r + 1))) h
      ∙ push_recent-recent xs t.read_us in
    let full : ltb 200 (length s.recent_read_us + 1) ≡ ltb 200 (length (recent ys) + 1) =
      ap (λ (r : List ℕ). ltb 200 (length r + 1)) h ∙ ap (λ (n : ℕ). ltb 200 (n + 1)) together in
    let instants : push_recent s.recent_ticks t.at (ltb 200 (length s.recent_read_us + 1))
        ≡ recent (ys ++ (t.at ∷ [])) =
      ap (push_recent s.recent_ticks t.at) full
      ∙ ap (λ (r : List ℕ). push_recent r t.at (ltb 200 (length (recent ys) + 1))) k
      ∙ push_recent-recent ys t.at in
    let (p, q) =
      record_all-from (record_tick s t.at t.read_us t.bytes t.failed_regions) ts
        (xs ++ (t.read_us ∷ [])) (ys ++ (t.at ∷ []))
        (omega (arith, length-append xs (t.read_us ∷ []), length-append ys (t.at ∷ []))) reads
        instants in
    (
      p ∙ ap recent (append_assoc xs (t.read_us ∷ []) (map (λ (t : Tick). t.read_us) ts)),
      q ∙ ap recent (append_assoc ys (t.at ∷ []) (map (λ (t : Tick). t.at) ts)),
    )

-- The statistics of a link since the window was restarted hold the read times and the instants of the
-- last 200 ticks, or of all where there are fewer, in their order.
pub record_all-recent :
    (s : LinkStats) (ts : List Tick)
    → ((record_all (restart_window s) ts).recent_read_us ≡ recent (map (λ t. t.read_us) ts))
      × ((record_all (restart_window s) ts).recent_ticks ≡ recent (map (λ t. t.at) ts))
unfolding restart_window
record_all-recent s ts = record_all-from (restart_window s) ts [] [] refl refl refl

spread-bounds :
    (lo hi : ℕ) (vs : List ℕ)
    → ((spread lo hi vs).0 ≤ lo)
      × (hi ≤ (spread lo hi vs).1)
      × All (λ v. ((spread lo hi vs).0 ≤ v) × (v ≤ (spread lo hi vs).1)) vs
unfolding spread
spread-bounds lo hi [] = (omega arith, omega arith, tt)
spread-bounds lo hi (v ∷ vs) =
    let (low, high, others) = spread-bounds (min lo v) (max hi v) vs in
    (omega (arith, low), omega (arith, high), ((omega (arith, low), omega (arith, high)), others))

-- The snapshot's greatest read time is above each of the window, and its jitter is what lies between
-- that and a time below each of the window.
pub snapshot-bounds :
    (ops : Arithmetic) (s : LinkStats) (target_hz skipped regions values : ℕ)
    → let shot = snapshot ops s target_hz skipped regions values in
      All (λ v. (v ≤ shot.read_max_us) × (shot.read_max_us ≤ v + shot.jitter_us)) s.recent_read_us
unfolding snapshot
snapshot-bounds ops s target_hz skipped regions values =
    by_window s.recent_read_us (spread-bounds (2 ^ 64 - 1) 0 s.recent_read_us).2
  where
    by_window :
        (vs : List ℕ)
        → All (λ v. ((spread (2 ^ 64 - 1) 0 vs).0 ≤ v) × (v ≤ (spread (2 ^ 64 - 1) 0 vs).1)) vs
        → All
            (λ v.
              (v ≤ (spread (2 ^ 64 - 1) 0 vs).1)
              × ((spread (2 ^ 64 - 1) 0 vs).1
                  ≤ v
                    + (if length vs == 0
                        then 0
                        else (spread (2 ^ 64 - 1) 0 vs).1 - (spread (2 ^ 64 - 1) 0 vs).0)))
            vs
    by_window [] h = tt
    by_window (x ∷ xs) h =
        All-map
          (λ v k. (
            k.1,
            let busy : (suc (length xs) == 0) ≡ false = ground arith in
                rw busy (omega (arith, k.0, k.1)),
          ))
          (x ∷ xs) h
