-- ===== src/Carrier/Ends.antt =====
-- What holds when an access ends without an error, composed along a chain of accesses.
use tuning_tools.Base.{ℕ, ◌≡◌, refl, sym, ap, ◌∙◌, List}
use tuning_tools.Carrier.{Result, ok, err, MemoryAccess, Step, and_then}
use tuning_tools.Carrier.Ram.{bytes_at, poke}

-- `P` holds of the result and the memory; an error asks for nothing.
abbrev pub Ends : {M A : Type 0} → Result A × M → (A → M → Type 0) → Type 0
Ends (ok a, m) P = P a m
Ends (err e, m) P = Unit {0}

pub Ends-and_then :
    {M A B : Type 0} (x : Result A × M) (f : A → Step M B) (P : A → M → Type 0) (Q : B → M → Type 0)
    → Ends x P
    → ((a : A) (m : M) → P a m → Ends (f a m) Q)
    → Ends (and_then x f) Q
Ends-and_then (ok a, m) f P Q h k = k a m h
Ends-and_then (err e, m) f P Q h k = tt

pub Ends-map :
    {M A : Type 0} (x : Result A × M) (P Q : A → M → Type 0)
    → Ends x P
    → ((a : A) (m : M) → P a m → Q a m)
    → Ends x Q
Ends-map (ok a, m) P Q h k = k a m h
Ends-map (err e, m) P Q h k = tt

module _ (c : MemoryAccess) where
  open c use {Memory, read, write, byte, read_ok, read_keeps, write_ok}

  pub read-Ends :
      (m : Memory) (a n : ℕ)
      → Ends (read m a n) (λ bs m'. (bs ≡ bytes_at (byte m) a n) × (byte m' ≡ byte m))
  read-Ends m a n = go (read m a n) refl
    where
      go :
          (x : Result (List ℕ) × Memory)
          → read m a n ≡ x
          → Ends x (λ bs m'. (bs ≡ bytes_at (byte m) a n) × (byte m' ≡ byte m))
      go (ok bs, m') e =
          (read_ok m a n bs (ap (λ x. x.0) e), sym (ap (λ x. byte x.1) e) ∙ read_keeps m a n)
      go (err x, m') e = tt

  pub write-Ends :
      (m : Memory) (a : ℕ) (bs : List ℕ)
      → Ends (write m a bs) (λ _ m'. byte m' ≡ poke (byte m) a bs)
  write-Ends m a bs = go (write m a bs) refl
    where
      go :
          (x : Result (Unit {0}) × Memory)
          → write m a bs ≡ x
          → Ends x (λ _ m'. byte m' ≡ poke (byte m) a bs)
      go (ok tt, m') e = sym (ap (λ x. byte x.1) e) ∙ write_ok m a bs (ap (λ x. x.0) e)
      go (err x, m') e = tt
