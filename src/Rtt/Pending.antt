-- ===== src/Rtt/Pending.antt =====
-- The bytes that a ring holds, oldest first: from the read offset up to the write offset, around the
-- end of the buffer.
use tuning_tools.Base.{
  ℕ, zero, suc, ◌+◌, ◌-◌, ◌%◌, ◌≤◌, ◌<◌, ◌≡◌, ◌⊎◌, inl, inr, refl, ap, ◌∙◌, List, [], ◌∷◌, ◌++◌,
  arith, length, ltb, leb, ◌==◌, if◌then◌else◌, Bool-cases, false, append-nil, ◌^◌,
}
use native.Mathlib.Nat.{mod-eq-sub-mod, mod-eq_of_lt}
use tuning_tools.Base.Bytes.{from_le_bytes}
use tuning_tools.Carrier.Ram.{Ram, bytes_at}
use tuning_tools.Rtt.{Ring}

module _ (ring : Ring) where
  open ring use {buffer, size}

  abbrev pub count : ℕ → ℕ → ℕ
  count w r = if leb r w then w - r else size - r + w

  abbrev pub next : ℕ → ℕ
  next s = if suc s == size then 0 else suc s

  -- `n` bytes from the offset `s` on.
  pub ring_bytes : Ram → ℕ → ℕ → List ℕ
  ring_bytes f s zero = []
  ring_bytes f s (suc n) = f (buffer + s) ∷ ring_bytes f (next s) n

  abbrev pub pending : Ram → ℕ → ℕ → List ℕ
  pending f w r = ring_bytes f r (count w r)

  -- The offset `n` bytes further.
  abbrev pub forward : ℕ → ℕ → ℕ
  forward s n = if ltb (s + n) size then s + n else s + n - size

  pub ring_bytes-straight :
      (f : Ram) (s n : ℕ) → s + n ≤ size → ring_bytes f s n ≡ bytes_at f (buffer + s) n
  unfolding ring_bytes bytes_at
  ring_bytes-straight f s zero h = refl
  ring_bytes-straight f s (suc zero) h = refl
  ring_bytes-straight f s (suc (suc n)) h =
      let inside : (suc s == size) ≡ false = ground arith in
      let there : suc (buffer + s) ≡ buffer + suc s = omega arith in
      rw (inside, there)
        (ap (◌∷◌ (f (buffer + s))) (ring_bytes-straight f (suc s) (suc n) (omega arith)))

  pub ring_bytes-append :
      (f : Ram) (s n k : ℕ)
      → s < size
      → n ≤ size
      → ring_bytes f s (n + k) ≡ ring_bytes f s n ++ ring_bytes f (forward s n) k
  unfolding ring_bytes
  ring_bytes-append f s zero k h g =
      let none : 0 + k ≡ k = omega arith in
      let here : forward s 0 ≡ s = ground arith in rw (none, here)
  ring_bytes-append f s (suc n) k h g =
      let more : suc n + k ≡ suc (n + k) = omega arith in
      let there : forward (next s) n ≡ forward s (suc n) = ground arith in
      rw more (
        ap (◌∷◌ (f (buffer + s)))
          (rw (← there) (ring_bytes-append f (next s) n k (ground arith) (omega arith))))

  pub length-ring_bytes : (f : Ram) (s n : ℕ) → length (ring_bytes f s n) ≡ n
  unfolding ring_bytes
  length-ring_bytes f s zero = refl
  length-ring_bytes f s (suc n) = ap suc (length-ring_bytes f (next s) n)

  pub ring_bytes-agree :
      (f g : Ram) (s n : ℕ)
      → s < size
      → n ≤ size
      → ((k : ℕ) → k < n → f (buffer + forward s k) ≡ g (buffer + forward s k))
      → ring_bytes f s n ≡ ring_bytes g s n
  unfolding ring_bytes
  ring_bytes-agree f g s zero h few e = refl
  ring_bytes-agree f g s (suc n) h few e =
      let here : forward s 0 ≡ s = ground arith in
      let first : f (buffer + s) ≡ g (buffer + s) = rw here at (e 0 (omega arith)) in
      rw (first, ring_bytes-agree f g (next s) n (ground arith) (omega arith) λ k lt. later k lt)
    where
      later : (k : ℕ) → k < n → f (buffer + forward (next s) k) ≡ g (buffer + forward (next s) k)
      later k lt =
          let there : forward (next s) k ≡ forward s (suc k) = ground arith in
          rw there (e (suc k) (omega arith))

  -- Two straight pieces, the second from the start of the buffer, where the first reaches its end.
  pub ring_bytes-wrap :
      (f : Ram) (s n k : ℕ)
      → s < size
      → s + n ≤ size
      → k ≤ size
      → ((k ≡ 0) ⊎ (s + n ≡ size))
      → ring_bytes f s (n + k) ≡ bytes_at f (buffer + s) n ++ bytes_at f buffer k
  unfolding bytes_at
  ring_bytes-wrap f s n k h g small (inl zero_more) =
      let whole : n + k ≡ n = omega arith in
      rw (whole, zero_more, append-nil (bytes_at f (buffer + s) n)) (ring_bytes-straight f s n g)
  ring_bytes-wrap f s n k h g small (inr full) =
      let start : forward s n ≡ 0 = ground arith in
      let base : buffer + 0 ≡ buffer = omega arith in
      ring_bytes-append f s n k h (omega arith)
      ∙ rw (start, ring_bytes-straight f s n g, ring_bytes-straight f 0 k (omega arith), base)

  -- The ring's offsets stand in memory, in range.
  pub record Holds (f : Ram) (w r : ℕ) : Type 0 where
    pub write_at : from_le_bytes (bytes_at f (ring.descriptor + 12) 4) ≡ w
    pub read_at : from_le_bytes (bytes_at f (ring.descriptor + 16) 4) ≡ r
    pub write_in : w < size
    pub read_in : r < size

  -- The two offsets of the descriptor lie outside the buffer, whose size is a `u32`.
  pub record IsSeparate : Type 0 where
    pub apart : (ring.descriptor + 20 ≤ buffer) ⊎ (buffer + size ≤ ring.descriptor + 12)
    pub word : size < 2 ^ 32

  pub count-lt : (w r : ℕ) → w < size → r < size → count w r < size
  count-lt w r h g = ground arith

  pub forward-mod : (s n : ℕ) → s < size → n ≤ size → (s + n) % size ≡ forward s n
  forward-mod s n h g = elim (Bool-cases (ltb (s + n) size)) [
    | inl short ↦ rw short (grind arith)
    | inr long ↦
        let far : size ≤ s + n = ground arith in
        rw (long, mod-eq-sub-mod far) (mod-eq_of_lt (omega arith))
  ]
