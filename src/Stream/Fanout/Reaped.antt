-- ===== src/Stream/Fanout/Reaped.antt =====
-- crates/studio-app/src/stream.rs: no client that left is kept, and what it lost is still counted.
use tuning_tools.Base.{
  ℕ, zero, suc, ◌+◌, ◌≤◌, ◌≡◌, refl, arith, Bool, true, false, List, [], ◌∷◌, ◌++◌, length,
  length-append, if◌then◌else◌, All, append-nil,
}
use tuning_tools.Stream.{Client, dropped_total}
use tuning_tools.Stream.Fanout.{Fanout, last_first, reap_from, reap, dropped_by_all}

total-append :
    (xs ys : List Client) → dropped_total (xs ++ ys) ≡ dropped_total xs + dropped_total ys
unfolding dropped_total
total-append [] ys = omega arith
total-append (x ∷ xs) ys = omega (arith, total-append xs ys)

total-last_first :
    (front rest : List Client)
    → dropped_total (last_first front rest) ≡ dropped_total front + dropped_total rest
unfolding last_first dropped_total
total-last_first front [] = omega arith
total-last_first front (c ∷ []) = omega arith
total-last_first front (c ∷ d ∷ rest) =
    omega (arith, total-last_first (front ++ (c ∷ [])) (d ∷ rest), total-append front (c ∷ []))

length-last_first :
    (front rest : List Client) → length (last_first front rest) ≡ length front + length rest
unfolding last_first
length-last_first front [] = omega arith
length-last_first front (c ∷ []) = omega arith
length-last_first front (c ∷ d ∷ rest) =
    omega (arith, length-last_first (front ++ (c ∷ [])) (d ∷ rest), length-append front (c ∷ []))

-- The clients that are alive.
abbrev pub IsAlive : Client → Type 0
IsAlive c = c.alive ≡ true

All-snoc :
    (xs : List Client) (c : Client) → All IsAlive xs → IsAlive c → All IsAlive (xs ++ (c ∷ []))
All-snoc [] c h a = (a, tt)
All-snoc (x ∷ xs) c h a = (h.0, All-snoc xs c h.1 a)

if_case :
    (P : List Client × ℕ → Type 0) (b : Bool) (x y : List Client × ℕ)
    → (b ≡ true → P x)
    → (b ≡ false → P y)
    → P (if b then x else y)
if_case P true x y h k = h refl
if_case P false x y h k = k refl

reap_from-All :
    (n : ℕ) (kept rest : List Client) (gone : ℕ)
    → length rest ≤ n
    → All IsAlive kept
    → All IsAlive (reap_from n kept rest gone).0
unfolding reap_from
reap_from-All zero kept [] gone few h = rw (append-nil kept) h
reap_from-All zero kept (c ∷ rest) gone few h = absurd (omega arith)
reap_from-All (suc n) kept [] gone few h = h
reap_from-All (suc n) kept (c ∷ rest) gone few h =
    if_case (λ r. All IsAlive r.0) c.alive _ _
      (λ alive.
        reap_from-All n (kept ++ (c ∷ [])) rest gone (omega arith) (All-snoc kept c h alive))
      (λ left.
        reap_from-All n kept (last_first [] rest) (gone + c.dropped_batches)
          (omega (arith, length-last_first [] rest)) h)

reap_from-total :
    (n : ℕ) (kept rest : List Client) (gone : ℕ)
    → (reap_from n kept rest gone).1 + dropped_total (reap_from n kept rest gone).0
      ≡ gone + (dropped_total kept + dropped_total rest)
unfolding reap_from dropped_total
reap_from-total zero kept rest gone = omega (arith, total-append kept rest)
reap_from-total (suc n) kept [] gone = omega arith
reap_from-total (suc n) kept (c ∷ rest) gone =
    if_case
      (λ r.
        r.1 + dropped_total r.0
        ≡ gone + (dropped_total kept + (c.dropped_batches + dropped_total rest)))
      c.alive _ _
      (λ alive.
        omega (arith, reap_from-total n (kept ++ (c ∷ [])) rest gone, total-append kept (c ∷ [])))
      (λ left. omega (
        arith,
        reap_from-total n kept (last_first [] rest) (gone + c.dropped_batches),
        total-last_first [] rest,
      ))

-- Behind `reap`, every client that is left is alive, and the count of the batches that were lost is what
-- it was: what the others lost is counted on.
pub reap-All :
    (f : Fanout) → All IsAlive (reap f).clients × (dropped_by_all (reap f) ≡ dropped_by_all f)
unfolding reap dropped_by_all dropped_total
reap-All f = (
  reap_from-All (length f.clients) [] f.clients f.dropped_gone (omega arith) tt,
  omega (arith, reap_from-total (length f.clients) [] f.clients f.dropped_gone),
)
