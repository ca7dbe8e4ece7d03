-- ===== src/Rtt/WriteRing.antt =====
-- `Ring::write` puts bytes behind the newest of the ring, all of them or none.
use tuning_tools.Base.{
  ℕ, ◌+◌, ◌-◌, ◌%◌, ◌^◌, ◌≤◌, ◌<◌, ◌≡◌, ◌⊎◌, inl, inr, refl, ap, ◌∙◌, sym, subst, Option, some,
  Bool, true, false, List, [], ◌∷◌, ◌++◌, arith, length, min, ltb, if◌then◌else◌, Bool-cases, take,
  drop, length-take, length-drop, take-append-drop,
}
use native.Mathlib.Nat.{mod-eq_of_lt}
use tuning_tools.Base.Bytes.{to_le_bytes, from_le_bytes-to_le_bytes}
use tuning_tools.Carrier.{MemoryAccess}
use tuning_tools.Carrier.Ram.{
  Ram, bytes_at, poke, bytes_at-poke, bytes_at-poke_outside, poke-outside,
}
use tuning_tools.Carrier.Ends.{Ends, Ends-and_then, write-Ends}
use tuning_tools.Rtt.{Ring, offsets, write_rest, write_pending, write_ring, advance}
use tuning_tools.Rtt.Pending.{
  Holds, IsSeparate, count, pending, ring_bytes, forward, forward-mod, ring_bytes-wrap,
  ring_bytes-append, ring_bytes-agree,
}
use tuning_tools.Rtt.ReadRing.{in_range, offsets-Ends}

module _ (c : MemoryAccess) (ring : Ring) where
  open c use {Memory, byte, write}
  open ring use {descriptor, buffer, size}

  -- The parts of the bytes that stand at the write offset and at the start of the buffer.
  abbrev cut : ℕ → List ℕ → ℕ
  cut w bytes = min (length bytes) (size - w)

  -- Memory with both parts in place.
  abbrev filled : Ram → ℕ → List ℕ → Ram
  filled f w bytes =
      poke (poke f (buffer + w) (take (cut w bytes) bytes)) buffer (drop (cut w bytes) bytes)

  -- Memory behind a write.
  abbrev after_write : Ram → ℕ → List ℕ → Ram
  after_write f w bytes =
      poke (filled f w bytes) (descriptor + 12) (to_le_bytes 4 (forward ring w (length bytes)))

  write_rest-Ends :
      (m : Memory) (rest : List ℕ)
      → Ends (write_rest c ring rest m) (λ _ m'. byte m' ≡ poke (byte m) buffer rest)
  unfolding write_rest poke
  write_rest-Ends m [] = refl
  write_rest-Ends m (b ∷ bs) = write-Ends c m buffer (b ∷ bs)

  -- The pieces in place are read as the ring's newest bytes.
  filled-ring_bytes :
      (f : Ram) (w : ℕ) (bytes : List ℕ)
      → w < size
      → length bytes < size
      → ring_bytes ring (filled f w bytes) w (length bytes) ≡ bytes
  filled-ring_bytes f w bytes h fits =
      let k = cut w bytes in
      let front = take k bytes in
      let back = drop k bytes in
      let front_len : length front ≡ k = omega (arith, length-take k bytes) in
      let back_len : length back ≡ length bytes - k = length-drop k bytes in
      let f1 = poke f (buffer + w) front in
      let whole : length bytes ≡ k + length back = omega arith in
      let first : bytes_at (poke f1 buffer back) (buffer + w) k ≡ front =
        bytes_at-poke_outside f1 (buffer + w) k buffer back (inr (omega arith))
        ∙ subst (λ n. bytes_at f1 (buffer + w) n ≡ front) front_len
            (bytes_at-poke f (buffer + w) front) in
      ap (ring_bytes ring (filled f w bytes) w) whole
      ∙ ring_bytes-wrap ring (filled f w bytes) w k (length back) h (omega arith) (omega arith)
          (ground arith)
      ∙ rw (first, bytes_at-poke f1 buffer back) (take-append-drop k bytes)

  -- The older bytes are not touched.
  filled-outside :
      (f : Ram) (w r : ℕ) (bytes : List ℕ) (k : ℕ)
      → w < size
      → r < size
      → length bytes + count ring w r < size
      → k < count ring w r
      → filled f w bytes (buffer + forward ring r k) ≡ f (buffer + forward ring r k)
  filled-outside f w r bytes k h g fits lt =
      let n = cut w bytes in
      let front_len = length-take n bytes in
      let back_len = length-drop n bytes in
      poke-outside (poke f (buffer + w) (take n bytes)) buffer (drop n bytes)
        (buffer + forward ring r k) (inr (ground (arith, back_len)))
      ∙ poke-outside f (buffer + w) (take n bytes) (buffer + forward ring r k)
          (ground (arith, front_len))

  after_write-Holds :
      (f : Ram) (w r : ℕ) (bytes : List ℕ)
      → IsSeparate ring
      → Holds ring f w r
      → length bytes + count ring w r < size
      → Holds ring (after_write f w bytes) (forward ring w (length bytes)) r
  after_write-Holds f w r bytes s h fits =
      let w' = forward ring w (length bytes) in
      let k = cut w bytes in
      let front_len = length-take k bytes in
      let back_len = length-drop k bytes in
      let f1 = poke f (buffer + w) (take k bytes) in
      let far : (descriptor + 16 + 4 ≤ buffer)
          ⊎ (buffer + length (drop k bytes) ≤ descriptor + 16) =
        ground (arith, s.apart) in
      let far' : (descriptor + 16 + 4 ≤ buffer + w)
          ⊎ (buffer + w + length (take k bytes) ≤ descriptor + 16) =
        ground (arith, s.apart) in
      record {
        write_at =
            rw (bytes_at-poke (filled f w bytes) (descriptor + 12) (to_le_bytes 4 w'))
              (from_le_bytes-to_le_bytes 4 w' (ground (arith, s.word)));
        read_at =
            rw
              (
                bytes_at-poke_outside (filled f w bytes) (descriptor + 16) 4 (descriptor + 12)
                    (to_le_bytes 4 w') (inr (omega arith)),
                bytes_at-poke_outside f1 (descriptor + 16) 4 buffer (drop k bytes) far,
                bytes_at-poke_outside f (descriptor + 16) 4 (buffer + w) (take k bytes) far',
              )
              h.read_at;
        write_in = ground arith;
        read_in = h.read_in;
      }

  after_write-pending :
      (f : Ram) (w r : ℕ) (bytes : List ℕ)
      → IsSeparate ring
      → w < size
      → r < size
      → length bytes + count ring w r < size
      → pending ring (after_write f w bytes) (forward ring w (length bytes)) r
        ≡ pending ring f w r ++ bytes
  after_write-pending f w r bytes s h g fits =
      let n = count ring w r in
      let w' = forward ring w (length bytes) in
      let more : count ring w' r ≡ n + length bytes = ground arith in
      let seam : forward ring r n ≡ w = ground arith in
      let descriptor_only : (t k : ℕ)
          → t < size
          → k ≤ size
          → ring_bytes ring (after_write f w bytes) t k ≡ ring_bytes ring (filled f w bytes) t k =
        λ t k ht hk.
          ring_bytes-agree ring (after_write f w bytes) (filled f w bytes) t k ht hk λ i lt.
            poke-outside (filled f w bytes) (descriptor + 12) (to_le_bytes 4 w')
              (buffer + forward ring t i) (ground (arith, s.apart)) in
      rw (
        more,
        ring_bytes-append ring (after_write f w bytes) r n (length bytes) g (omega arith),
        seam,
        descriptor_only w (length bytes) h (omega arith),
        filled-ring_bytes f w bytes h (omega arith),
        descriptor_only r n g (omega arith),
        ring_bytes-agree ring (filled f w bytes) f r n g (omega arith)
            (λ k lt. filled-outside f w r bytes k h g fits lt),
      )

  -- What a write into a memory `f` with the offsets `w` and `r` yields, with the memory `f'` behind
  -- it: all of the bytes, or none where they do not fit.
  abbrev pub Puts : List ℕ → Ram → ℕ → ℕ → Option Bool → Ram → Type 0
  Puts bytes f w r result f' =
      ((length bytes + count ring w r < size)
        × (result ≡ some true)
        × Holds ring f' (forward ring w (length bytes)) r
        × (pending ring f' (forward ring w (length bytes)) r ≡ pending ring f w r ++ bytes))
      ⊎ ((size ≤ length bytes + count ring w r) × (result ≡ some false) × (f' ≡ f))

  write_pending-Ends :
      (m : Memory) (w r : ℕ) (bytes : List ℕ)
      → IsSeparate ring
      → Holds ring (byte m) w r
      → Ends
          (write_pending c ring bytes w r m)
          (λ result m'. Puts bytes (byte m) w r result (byte m'))
  unfolding write_pending
  write_pending-Ends m w r bytes s h = elim (Bool-cases (ltb free (length bytes))) [
    | inl full ↦ rw full (inr (ground (arith, h.write_in, h.read_in), refl, refl))
    | inr room ↦
        let fits : length bytes + count ring w r < size = ground (arith, h.write_in, h.read_in) in
        let target : (w + length bytes) % size % 2 ^ 32 ≡ forward ring w (length bytes) =
          rw (forward-mod ring w (length bytes) h.write_in (omega arith))
            (mod-eq_of_lt (ground (arith, h.write_in, s.word))) in
        rw (room, target)
          (Ends-and_then (write m (buffer + w) (take (cut w bytes) bytes)) _ _ _
            (write-Ends c m (buffer + w) (take (cut w bytes) bytes))
            λ _ m1 h1.
              Ends-and_then (write_rest c ring (drop (cut w bytes) bytes) m1) _ _ _
                (write_rest-Ends m1 (drop (cut w bytes) bytes))
                λ _ m2 h2.
                  Ends-and_then (advance c ring 12 (forward ring w (length bytes)) m2) _ _ _
                    (unfold advance in
                      write-Ends c m2 (descriptor + 12)
                        (to_le_bytes 4 (forward ring w (length bytes))))
                    λ _ m3 h3.
                      rw (h3, h2, h1)
                        (inl (
                          fits,
                          refl,
                          after_write-Holds (byte m) w r bytes s h fits,
                          after_write-pending (byte m) w r bytes s h.write_in h.read_in fits,
                        )))
  ]
    where
      free : ℕ
      free = if ltb w r then r - w - 1 else size - w + r - 1

  -- With the ring's offsets in memory and in range, a write that no access fails appends all of the
  -- bytes behind the ones that the ring holds, where they leave one place of it empty, and changes
  -- nothing else that the ring holds; where they do not fit it answers so and writes nothing.
  pub write_ring-Puts :
      (m : Memory) (w r : ℕ) (bytes : List ℕ)
      → IsSeparate ring
      → Holds ring (byte m) w r
      → Ends (write_ring c ring bytes m) (λ result m'. Puts bytes (byte m) w r result (byte m'))
  unfolding write_ring
  write_ring-Puts m w r bytes s h =
      Ends-and_then (offsets c ring m) _ _ _ (offsets-Ends c ring m) λ found m' (e, k).
        let inside : in_range c ring w r ≡ some (w, r) = ground (arith, h.write_in, h.read_in) in
        rw (e, h.write_at, h.read_at, inside)
          (subst
            (λ f.
              Ends (write_pending c ring bytes w r m')
                (λ result m2. Puts bytes f w r result (byte m2)))
            k (write_pending-Ends m' w r bytes s (subst (λ f. Holds ring f w r) (sym k) h)))
