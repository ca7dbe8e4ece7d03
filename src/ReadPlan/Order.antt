-- ===== src/ReadPlan/Order.antt =====
-- The spans of a plan's items: each item that has one has its entry, and the sort keeps them all, in
-- ascending order.
use tuning_tools.Base.{
  ℕ, zero, suc, ◌+◌, ◌≤◌, ◌≡◌, inl, inr, refl, All-map, subst, ◌∙◌, ap, arith, ◌&&◌, ◌||◌, Option,
  none, some, List, [], ◌∷◌, get_elem?, ltb, leb, ◌==◌, Bool-cases, All,
}
use tuning_tools.ReadPlan.{ReadItem, span, Entry, entry_of, entries, insert, sort}

-- The starts ascend from `lo` on.
abbrev pub IsAscending : ℕ → List Entry → Type 0
IsAscending lo [] = Unit {0}
IsAscending lo (e ∷ es) = (lo ≤ e.start) × IsAscending e.start es

insert-IsAscending :
    (e : Entry) (es : List Entry) (lo : ℕ)
    → lo ≤ e.start
    → IsAscending lo es
    → IsAscending lo (insert e es)
unfolding insert
insert-IsAscending e [] lo h k = (h, tt)
insert-IsAscending e (x ∷ xs) lo h k =
    elim (Bool-cases (ltb e.start x.start || (e.start == x.start && leb e.len x.len))) [
      | inl here ↦ rw here (h, (ground arith, k.1))
      | inr later ↦ rw later (k.0, insert-IsAscending e xs x.start (ground arith) k.1)
    ]

pub sort-IsAscending : (es : List Entry) → IsAscending 0 (sort es)
unfolding sort
sort-IsAscending [] = tt
sort-IsAscending (e ∷ es) = insert-IsAscending e (sort es) 0 (omega arith) (sort-IsAscending es)

module _ (P : Entry → Type 0) where
  insert-All : (e : Entry) (es : List Entry) → P e → All P es → All P (insert e es)
  unfolding insert
  insert-All e [] h k = (h, tt)
  insert-All e (x ∷ xs) h k =
      elim (Bool-cases (ltb e.start x.start || (e.start == x.start && leb e.len x.len))) [
        | inl here ↦ rw here (h, k)
        | inr later ↦ rw later (k.0, insert-All e xs h k.1)
      ]

  pub sort-All : (es : List Entry) → All P es → All P (sort es)
  unfolding sort
  sort-All [] k = tt
  sort-All (e ∷ es) k = insert-All e (sort es) k.0 (sort-All es k.1)

  insert-All_inv : (e : Entry) (es : List Entry) → All P (insert e es) → P e × All P es
  unfolding insert
  insert-All_inv e [] k = k
  insert-All_inv e (x ∷ xs) k =
      elim (Bool-cases (ltb e.start x.start || (e.start == x.start && leb e.len x.len))) [
        | inl here ↦ rw here at k
        | inr later ↦
            let rest : P x × All P (insert e xs) = rw later at k in
            let (first, others) = insert-All_inv e xs rest.1 in (first, (rest.0, others))
      ]

  pub sort-All_inv : (es : List Entry) → All P (sort es) → All P es
  unfolding sort
  sort-All_inv [] k = tt
  sort-All_inv (e ∷ es) k =
      let (first, others) = insert-All_inv e (sort es) k in (first, sort-All_inv es others)

-- An entry stands for the span of its item, the items being numbered from `i` on.
abbrev pub IsEntry : ℕ → List ReadItem → Entry → Type 0
IsEntry i items e =
    (j : ℕ) × (item : ReadItem) × (e.index ≡ i + j)
    × (get_elem? items j ≡ some item)
    × (span item ≡ some (e.start, e.len))

module _ (P : Entry → Type 0) (i : ℕ) (es : List Entry) where
  entry_of-All :
      (found : Option (ℕ × ℕ))
      → ((start len : ℕ)
          → found ≡ some (start, len)
          → P (record { index = i; start = start; len = len }))
      → All P es
      → All P (entry_of i found es)
  entry_of-All none h k = k
  entry_of-All (some (start, len)) h k = (h start len refl, k)

  entry_of-All_inv : (found : Option (ℕ × ℕ)) → All P (entry_of i found es) → All P es
  entry_of-All_inv none k = k
  entry_of-All_inv (some (start, len)) k = k.1

  entry_of-first :
      (found : Option (ℕ × ℕ)) (start len : ℕ)
      → All P (entry_of i found es)
      → found ≡ some (start, len)
      → P (record { index = i; start = start; len = len })
  entry_of-first found start len k e = (subst (λ found. All P (entry_of i found es)) e k).0

pub entries-IsEntry : (i : ℕ) (items : List ReadItem) → All (IsEntry i items) (entries i items)
unfolding entries
entries-IsEntry i [] = tt
entries-IsEntry i (item ∷ items) =
    entry_of-All (IsEntry i (item ∷ items)) i (entries (suc i) items) (span item)
      (λ start len e. (0, item, omega arith, refl, e))
      (All-map further (entries (suc i) items) (entries-IsEntry (suc i) items))
  where
    further : (e : Entry) → IsEntry (suc i) items e → IsEntry i (item ∷ items) e
    further e (j, it, at, found, there) = (suc j, it, omega (arith, at), found, there)

-- What holds of all entries holds of the entry of each item that has a span.
pub entries-All :
    (P : Entry → Type 0) (i j : ℕ) (items : List ReadItem) (item : ReadItem) (start len : ℕ)
    → All P (entries i items)
    → get_elem? items j ≡ some item
    → span item ≡ some (start, len)
    → P (record { index = i + j; start = start; len = len })
unfolding entries
entries-All P i j [] item start len h e s = absurd (ground arith)
entries-All P i zero (x ∷ items) item start len h e s =
    let same : x ≡ item = ground arith in
    let here : i + 0 ≡ i = omega arith in
    rw here (entry_of-first P i (entries (suc i) items) (span x) start len h (ap span same ∙ s))
entries-All P i (suc j) (x ∷ items) item start len h e s =
    let there : i + suc j ≡ suc i + j = omega arith in
    rw there (
      entries-All P (suc i) j items item start len
        (entry_of-All_inv P i (entries (suc i) items) (span x) h) e s)
