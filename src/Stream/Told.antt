-- ===== src/Stream/Told.antt =====
-- crates/studio-app/src/stream.rs: a client that misses lines is told how many.
use tuning_tools.Base.{
  ℕ, ◌+◌, ◌≤◌, ◌≡◌, refl, arith, Bool, true, false, List, [], ◌∷◌, ◌++◌, length, length-append, ltb,
  Bool-cases, inl, inr,
}
use tuning_tools.Stream.{Line, Client, try_send, Sent, after_line, offer_line, after_notice, offer}

-- The batches that a line carries or tells to be lost.
abbrev pub batches_of : Line → ℕ
batches_of (Line.samples seq batch set) = 1
batches_of (Line.dropped batches messages) = batches
batches_of line = 0

unfoldable pub batches_in : List Line → ℕ
batches_in [] = 0
batches_in (line ∷ lines) = batches_of line + batches_in lines

batches-append : (xs ys : List Line) → batches_in (xs ++ ys) ≡ batches_in xs + batches_in ys
unfolding batches_in
batches-append [] ys = omega arith
batches-append (x ∷ xs) ys = omega (arith, batches-append xs ys)

-- What a line is offered as.
abbrev pub weight : Bool → ℕ
weight true = 1
weight false = 0

-- The batches that stand in the queue, that it tells to be lost, and that are to be told.
abbrev pub known : Client → ℕ
known c = batches_in c.queue + c.pending_batches

-- The queue is not above its capacity.
abbrev pub IsWithin : Client → Type 0
IsWithin c = length c.queue ≤ c.capacity

abbrev Tells : ℕ → Client → Bool × Client → Type 0
Tells n c (keep, c') = (known c' ≡ known c + n) × IsWithin c' × (c'.is_open ≡ true)

lost-Tells :
    (batch : Bool) (limit : ℕ) (c : Client)
    → c.is_open ≡ true
    → IsWithin c
    → Tells (weight batch) c (after_line batch limit (Sent.full, c))
lost-Tells true limit c o h = (omega arith, h, o)
lost-Tells false limit c o h = (omega arith, h, o)

offer_line-Tells :
    (line : Line) (batch : Bool) (limit : ℕ) (c : Client)
    → c.is_open ≡ true
    → IsWithin c
    → batches_of line ≡ weight batch
    → Tells (weight batch) c (offer_line line batch limit c)
unfolding try_send batches_in
offer_line-Tells line batch limit c o h e = elim (Bool-cases (ltb (length c.queue) c.capacity)) [
  | inl free ↦ rw (o, free) (omega (arith, batches-append c.queue (line ∷ []), e), room free, refl)
  | inr none_left ↦ rw (o, none_left) (lost-Tells batch limit (record c { is_open = true }) refl h)
]
  where
    room : ltb (length c.queue) c.capacity ≡ true → length (c.queue ++ (line ∷ [])) ≤ c.capacity
    room free = ground (arith, length-append c.queue (line ∷ []))

notice-Tells :
    (line : Line) (batch : Bool) (limit : ℕ) (c : Client)
    → c.is_open ≡ true
    → IsWithin c
    → batches_of line ≡ weight batch
    → Tells (weight batch) c (
        after_notice line batch limit
          (try_send (Line.dropped c.pending_batches c.pending_messages) c))
unfolding try_send batches_in
notice-Tells line batch limit c o h e = elim (Bool-cases (ltb (length c.queue) c.capacity)) [
  | inl free ↦
      rw (o, free)
        (let c' : Client = record c {
          queue = c.queue ++ (notice ∷ []);
          pending_batches = 0;
          pending_messages = 0;
          is_open = true;
        } in
          let (counts, within, open_still) =
            offer_line-Tells line batch limit c' refl (room free) e in
          (omega (arith, counts, batches-append c.queue (notice ∷ [])), within, open_still))
  | inr none_left ↦
      rw (o, none_left) (offer_line-Tells line batch limit (record c { is_open = true }) refl h e)
]
  where
    notice : Line
    notice = Line.dropped c.pending_batches c.pending_messages

    room : ltb (length c.queue) c.capacity ≡ true → length (c.queue ++ (notice ∷ [])) ≤ c.capacity
    room free = ground (arith, length-append c.queue (notice ∷ []))

-- A line that is offered to a client that is alive and whose writer runs: the batches in the client's
-- queue, those that its queue tells to be lost, and those that it is to be told of, grow by the batch that
-- the line carries, if any, and the queue stays within its capacity. The line is a batch's or carries none.
pub offer-known :
    (line : Line) (batch : Bool) (limit : ℕ) (c : Client)
    → c.alive ≡ true
    → c.is_open ≡ true
    → length c.queue ≤ c.capacity
    → batches_of line ≡ weight batch
    → (known (offer line batch limit c).1 ≡ known c + weight batch)
      × (length (offer line batch limit c).1.queue ≤ (offer line batch limit c).1.capacity)
unfolding offer
offer-known line batch limit c a o h e =
    elim (Bool-cases (ltb 0 (c.pending_batches + c.pending_messages))) [
      | inl late ↦
          rw (a, late)
            (let (counts, within, open_still) =
                notice-Tells line batch limit (record c { alive = true }) o h e in
              (counts, within))
      | inr prompt ↦
          rw (a, prompt)
            (let (counts, within, open_still) =
                offer_line-Tells line batch limit (record c { alive = true }) o h e in
              (counts, within))
    ]
