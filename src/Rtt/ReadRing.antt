-- ===== src/Rtt/ReadRing.antt =====
-- `Ring::read` takes the oldest bytes off the ring.
use tuning_tools.Base.{
  ℕ, zero, suc, ◌+◌, ◌-◌, ◌%◌, ◌^◌, ◌≤◌, ◌<◌, ◌≡◌, ◌≢◌, ◌⊎◌, inl, inr, refl, sym, subst, Option,
  none, some, true, ◌&&◌, ◌||◌, List, [], ◌++◌, arith, length, min, ltb, leb, ◌==◌, if◌then◌else◌,
  Bool-cases, take, drop,
}
use native.Mathlib.Nat.{mod-eq_of_lt}
use tuning_tools.Base.Bytes.{to_le_bytes, from_le_bytes, from_le_bytes-to_le_bytes}
use tuning_tools.Carrier.{MemoryAccess}
use tuning_tools.Carrier.Ram.{
  Ram, bytes_at, poke, bytes_at-poke, bytes_at-poke_outside, poke-outside,
}
use tuning_tools.Carrier.Ends.{Ends, Ends-and_then, read-Ends, write-Ends}
use tuning_tools.Rtt.{Ring, offsets, read_head, read_pending, read_ring, advance}
use tuning_tools.Rtt.Pending.{
  Holds, IsSeparate, count, pending, ring_bytes, forward, forward-mod, ring_bytes-wrap, count-lt,
  ring_bytes-append, ring_bytes-agree, length-ring_bytes,
}

module _ (c : MemoryAccess) (ring : Ring) where
  open c use {Memory, byte, read}
  open ring use {descriptor, buffer, size}

  -- The eight bytes read are the two offsets.
  offset_bytes :
      (f : Ram)
      → (take 4 (bytes_at f (descriptor + 12) 8) ≡ bytes_at f (descriptor + 12) 4)
        × (drop 4 (bytes_at f (descriptor + 12) 8) ≡ bytes_at f (descriptor + 16) 4)
  unfolding bytes_at
  offset_bytes f =
      let there : suc (suc (suc (suc (descriptor + 12)))) ≡ descriptor + 16 = omega arith in
      (refl, rw there)

  abbrev pub in_range : ℕ → ℕ → Option (ℕ × ℕ)
  in_range w r = if leb size w || leb size r then none else some (w, r)

  pub offsets-Ends :
      (m : Memory)
      → Ends (offsets c ring m) (λ found m'.
        (found
          ≡ in_range
              (from_le_bytes (bytes_at (byte m) (descriptor + 12) 4))
              (from_le_bytes (bytes_at (byte m) (descriptor + 16) 4)))
        × (byte m' ≡ byte m))
  unfolding offsets
  offsets-Ends m =
      Ends-and_then (read m (descriptor + 12) 8) _ _ _ (read-Ends c m (descriptor + 12) 8)
        λ bs m' h. let (front, back) = offset_bytes (byte m) in rw (h.0, front, back) (refl, h.1)

  read_head-Ends :
      (m : Memory) (head : ℕ)
      → Ends
          (read_head c ring head m)
          (λ bs m'. (bs ≡ bytes_at (byte m) buffer head) × (byte m' ≡ byte m))
  unfolding read_head bytes_at
  read_head-Ends m zero = (refl, refl)
  read_head-Ends m (suc head) =
      let some_more : ltb 0 (suc head) ≡ true = ground arith in
      rw some_more (read-Ends c m buffer (suc head))

  -- Memory behind a new read offset.
  abbrev after_read : Ram → ℕ → Ram
  after_read f r' = poke f (descriptor + 16) (to_le_bytes 4 r')

  after_read-Holds :
      (f : Ram) (w r r' : ℕ)
      → IsSeparate ring
      → Holds ring f w r
      → r' < size
      → Holds ring (after_read f r') w r'
  after_read-Holds f w r r' s h small = record {
    write_at =
        rw
          (bytes_at-poke_outside f (descriptor + 12) 4 (descriptor + 16) (to_le_bytes 4 r')
            (inl (omega arith)))
          h.write_at;
    read_at =
        rw (bytes_at-poke f (descriptor + 16) (to_le_bytes 4 r'))
          (from_le_bytes-to_le_bytes 4 r' (omega (arith, s.word)));
    write_in = h.write_in;
    read_in = small;
  }

  after_read-pending :
      (f : Ram) (w r r' : ℕ)
      → IsSeparate ring
      → w < size
      → r' < size
      → pending ring (after_read f r') w r' ≡ pending ring f w r'
  after_read-pending f w r r' s h small =
      let few = count-lt ring w r' h small in
      ring_bytes-agree ring (after_read f r') f r' (count ring w r') small (omega arith) λ k lt.
        let inside : forward ring r' k < size = ground arith in
        poke-outside f (descriptor + 16) (to_le_bytes 4 r') (buffer + forward ring r' k)
          (ground (arith, s.apart, inside))

  -- What a read from a memory `f` with the offsets `w` and `r` yields, with the memory `f'` behind it.
  abbrev pub Takes : ℕ → Ram → ℕ → ℕ → Option (List ℕ) → Ram → Type 0
  Takes capacity f w r result f' =
      (got : List ℕ) × (r' : ℕ) × (result ≡ some got)
      × (length got ≡ min capacity (count ring w r))
      × Holds ring f' w r'
      × (pending ring f w r ≡ got ++ pending ring f' w r')

  abbrev tail_of : ℕ → ℕ → ℕ
  tail_of w r = if ltb r w then w - r else size - r

  abbrev len_of : ℕ → ℕ → ℕ → ℕ
  len_of capacity w r = min (tail_of w r) capacity

  abbrev head_of : ℕ → ℕ → ℕ → ℕ
  head_of capacity w r =
      let len = len_of capacity w r in
      if ltb w r && len == tail_of w r then min w (capacity - len) else 0

  -- The two pieces of a read: their lengths, and the offset behind them.
  pieces :
      (capacity w r : ℕ)
      → w < size
      → r < size
      → w ≢ r
      → let len = len_of capacity w r in
        let head = head_of capacity w r in
        (len + head ≡ min capacity (count ring w r))
        × (r + len ≤ size)
        × (head ≤ size)
        × ((head ≡ 0) ⊎ (r + len ≡ size))
        × (forward ring r (len + head) < size)
        × (count ring w r ≡ len + head + count ring w (forward ring r (len + head)))
  pieces capacity w r hw hr ne =
      (ground arith, ground arith, ground arith, ground arith, ground arith, ground arith)

  -- The pieces that were read, and the offset that was written, make a `Takes`.
  read-Takes :
      (f : Ram) (capacity w r : ℕ)
      → IsSeparate ring
      → Holds ring f w r
      → w ≢ r
      → let len = len_of capacity w r in
        let head = head_of capacity w r in
        Takes capacity f w r
          (some (bytes_at f (buffer + r) len ++ bytes_at f buffer head))
          (after_read f ((r + (len + head)) % size % 2 ^ 32))
  read-Takes f capacity w r s h ne =
      let len = len_of capacity w r in
      let head = head_of capacity w r in
      let n = len + head in
      let few = count-lt ring w r h.write_in h.read_in in
      let (total, straight, small, wraps, inside, split) =
        pieces capacity w r h.write_in h.read_in ne in
      let next : (r + n) % size % 2 ^ 32 ≡ forward ring r n =
        rw (forward-mod ring r n h.read_in (omega arith)) (mod-eq_of_lt (omega (arith, s.word))) in
      let got = ring_bytes-wrap ring f r len head h.read_in straight small wraps in
      let r' = forward ring r n in
      rw (next, ← got)
        (
          ring_bytes ring f r n,
          r',
          refl,
          omega (arith, length-ring_bytes ring f r n, total),
          after_read-Holds f w r r' s h inside,
          rw (after_read-pending f w r r' s h.write_in inside, split)
              (ring_bytes-append ring f r n (count ring w r') h.read_in (omega arith)),
        )

  read_pending-Ends :
      (m : Memory) (capacity w r : ℕ)
      → IsSeparate ring
      → Holds ring (byte m) w r
      → Ends
          (read_pending c ring capacity w r m)
          (λ result m'. Takes capacity (byte m) w r result (byte m'))
  unfolding read_pending
  read_pending-Ends m capacity w r s h = elim (Bool-cases (w == r)) [
    | inl same ↦
        let none_left : count ring w r ≡ 0 = ground arith in
        rw same ([], r, refl, rw none_left (omega arith), h, refl)
    | inr other ↦
        let ne : w ≢ r = ground arith in
        rw other (
          Ends-and_then (read m (buffer + r) len) _ _ _ (read-Ends c m (buffer + r) len)
            λ first m1 h1.
              Ends-and_then (read_head c ring head m1) _ _ _ (read_head-Ends m1 head) λ rest m2 h2.
                Ends-and_then (advance c ring 16 next m2) _ _ _
                  (unfold advance in write-Ends c m2 (descriptor + 16) (to_le_bytes 4 next))
                  λ _ m3 h3. taken ne first rest (byte m1) (byte m2) (byte m3) h1 h2 h3)
  ]
    where
      len : ℕ
      len = len_of capacity w r

      head : ℕ
      head = head_of capacity w r

      next : ℕ
      next = (r + (len + head)) % size % 2 ^ 32

      taken :
          w ≢ r
          → (first rest : List ℕ) (f1 f2 f3 : Ram)
          → (first ≡ bytes_at (byte m) (buffer + r) len) × (f1 ≡ byte m)
          → (rest ≡ bytes_at f1 buffer head) × (f2 ≡ f1)
          → f3 ≡ poke f2 (descriptor + 16) (to_le_bytes 4 next)
          → Takes capacity (byte m) w r (some (first ++ rest)) f3
      taken ne first rest f1 f2 f3 (e1, k1) (e2, k2) k3 =
          rw (k3, k2, e2, k1, e1) (read-Takes (byte m) capacity w r s h ne)

  -- With the ring's offsets in memory and in range, a read that no access fails yields the oldest
  -- bytes that the ring holds, all of them or as many as the buffer takes; the ring then holds the
  -- others, in their order, behind a new read offset.
  pub read_ring-Takes :
      (m : Memory) (capacity w r : ℕ)
      → IsSeparate ring
      → Holds ring (byte m) w r
      → Ends
          (read_ring c ring capacity m)
          (λ result m'. Takes capacity (byte m) w r result (byte m'))
  unfolding read_ring
  read_ring-Takes m capacity w r s h =
      Ends-and_then (offsets c ring m) _ _ _ (offsets-Ends m) λ found m' (e, k).
        let inside : in_range w r ≡ some (w, r) = ground (arith, h.write_in, h.read_in) in
        rw (e, h.write_at, h.read_at, inside)
          (subst
            (λ f.
              Ends (read_pending c ring capacity w r m')
                (λ result m2. Takes capacity f w r result (byte m2)))
            k (read_pending-Ends m' capacity w r s (subst (λ f. Holds ring f w r) (sym k) h)))

  -- With an offset out of range a read copies nothing and writes nothing.
  pub read_ring-none :
      (m : Memory) (capacity : ℕ)
      → (size ≤ from_le_bytes (bytes_at (byte m) (descriptor + 12) 4))
        ⊎ (size ≤ from_le_bytes (bytes_at (byte m) (descriptor + 16) 4))
      → Ends (read_ring c ring capacity m) (λ result m'. (result ≡ none) × (byte m' ≡ byte m))
  unfolding read_ring
  read_ring-none m capacity far =
      Ends-and_then (offsets c ring m) _ _ _ (offsets-Ends m) λ found m' h.
        let outside : in_range (from_le_bytes (bytes_at (byte m) (descriptor + 12) 4))
              (from_le_bytes (bytes_at (byte m) (descriptor + 16) 4))
            ≡ none =
          ground arith in
        rw (h.0, outside) (refl, h.1)
