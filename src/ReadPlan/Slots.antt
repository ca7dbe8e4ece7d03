-- ===== src/ReadPlan/Slots.antt =====
-- The loop of `with_limits`: each slot lies where its item does, inside one of the regions.
use tuning_tools.Base.{
  ℕ, ◌+◌, ◌-◌, ◌≤◌, ◌<◌, ◌≡◌, ◌≢◌, inl, inr, refl, sym, ◌∙◌, ap, subst, arith, Option, none, some,
  List, [], ◌∷◌, ◌++◌, length, get_elem?, get_or, set, replicate, ◌==◌, Bool-cases, Option-cases,
  All, length-set, get_or-set, get_or-set_other, get_or-replicate, get_or-append, get_or-length,
  length-append, length-replicate, get_elem?-lt,
}
use tuning_tools.ReadPlan.{
  ReadItem, span, Region, Slot, Entry, Building, entries, sort, no_region, last_of, grown, merges,
  regions_with, place, place_all, with_limits,
}
use tuning_tools.ReadPlan.Order.{
  IsAscending, IsEntry, sort-IsAscending, sort-All, sort-All_inv, entries-IsEntry, entries-All,
}

-- A slot stands for the bytes of a span, inside its region.
pub record Fits (regions : List Region) (s : Slot) (start len : ℕ) : Type 0 where
  pub there : s.region < length regions
  pub at : (get_or regions s.region no_region).address + s.offset ≡ start
  pub wide : s.len ≡ len
  pub inside : s.offset + s.len ≤ (get_or regions s.region no_region).len

module _ (gap max_len : ℕ) (regions : List Region) (e : Entry) where
  abbrev next_regions : List Region
  next_regions = regions_with gap max_len regions e

  abbrev new_slot : Slot
  new_slot = record {
    region = length next_regions - 1;
    offset = e.start - (last_of next_regions).address;
    len = e.len;
  }

  abbrev StartsBefore : Type 0
  StartsBefore = 0 < length regions → (last_of regions).address ≤ e.start

  abbrev region_at : List Region → ℕ → Region
  region_at rs j = get_or rs j no_region

  -- A region keeps its start, and does not shrink.
  regions_with-grows :
      (j : ℕ)
      → j < length regions
      → (j < length next_regions)
        × ((region_at next_regions j).address ≡ (region_at regions j).address)
        × ((region_at regions j).len ≤ (region_at next_regions j).len)
  unfolding regions_with
  regions_with-grows j lt = elim (Bool-cases (merges gap max_len regions e)) [
    | inr opens ↦
        let more = length-append regions (record { address = e.start; len = e.len } ∷ []) in
        rw
          (
            opens,
            get_or-append regions (record { address = e.start; len = e.len } ∷ []) j no_region lt,
          )
          (omega (arith, more), refl, omega arith)
    | inl joins ↦ elim (Bool-cases (length regions - 1 == j)) [
      | inl same ↦
          let here : length regions - 1 ≡ j = ground arith in
          let new = get_or-set regions j (grown (region_at regions j) e) no_region lt in
          rw (joins, here, new)
            (omega (arith, length-set regions j (grown (region_at regions j) e)), refl, omega arith)
      | inr other ↦
          let away : length regions - 1 ≢ j = ground arith in
          let old =
            get_or-set_other regions (length regions - 1) j (grown (last_of regions) e) no_region
              away in
          rw (joins, old)
            (
              omega (arith, length-set regions (length regions - 1) (grown (last_of regions) e)),
              refl,
              omega arith,
            )
    ]
  ]

  regions_with-keeps :
      (s : Slot) (start len : ℕ) → Fits regions s start len → Fits next_regions s start len
  regions_with-keeps s start len h =
      let (lt, same, more) = regions_with-grows s.region h.there in
      record {
        there = lt;
        at = omega (arith, same, h.at);
        wide = h.wide;
        inside = omega (arith, more, h.inside);
      }

  -- The last region holds the entry.
  regions_with-last :
      StartsBefore
      → (0 < length next_regions)
        × ((last_of next_regions).address ≤ e.start)
        × (e.start + e.len ≤ (last_of next_regions).address + (last_of next_regions).len)
  unfolding regions_with merges
  regions_with-last before = elim (Bool-cases (merges gap max_len regions e)) [
    | inl joins ↦
        let some_region : 0 < length regions = ground arith in
        let first = before some_region in
        let size = length-set regions (length regions - 1) (grown (last_of regions) e) in
        let new =
          get_or-set regions (length regions - 1) (grown (last_of regions) e) no_region
            (omega arith) in
        rw (joins, size, new) (omega arith, omega arith, omega arith)
    | inr opens ↦
        let size : length (regions ++ (record { address = e.start; len = e.len } ∷ [])) - 1
            ≡ length regions =
          omega (arith, length-append regions (record { address = e.start; len = e.len } ∷ [])) in
        let new =
          get_or-length regions (record { address = e.start; len = e.len } ∷ []) no_region in
        rw (opens, size, new)
          (
            omega (arith, length-append regions (record { address = e.start; len = e.len } ∷ [])),
            omega arith,
            omega arith,
          )
  ]

  regions_with-Fits : StartsBefore → Fits next_regions new_slot e.start e.len
  regions_with-Fits before =
      let (some_region, first, holds) = regions_with-last before in
      record { there = omega arith; at = omega arith; wide = refl; inside = omega arith }

module _ (items : List ReadItem) (gap max_len : ℕ) where
  -- A slot that is set stands for the span of its item.
  record IsBuilt (b : Building) : Type 0 where
    pub sized : length b.slots ≡ length items
    pub placed :
        (i : ℕ) (s : Slot)
        → get_or b.slots i none ≡ some s
        → (item : ReadItem) × (start : ℕ) × (len : ℕ) × (get_elem? items i ≡ some item)
          × (span item ≡ some (start, len))
          × Fits b.regions s start len

  place-IsBuilt :
      (b : Building) (e : Entry)
      → IsEntry 0 items e
      → (0 < length b.regions → (last_of b.regions).address ≤ e.start)
      → IsBuilt b
      → IsBuilt (place gap max_len b e)
  unfolding place
  place-IsBuilt b e (j, item, at, found, there) before h = record {
    sized = length-set b.slots e.index _ ∙ h.sized;
    placed = λ i s set_at. elim (Bool-cases (e.index == i)) [
      | inl same ↦
          let here : e.index ≡ i = ground arith in
          let at_j : j ≡ i = omega arith in
          let inside : e.index < length b.slots =
            omega (arith, get_elem?-lt items j item found, h.sized) in
          let new =
            get_or-set b.slots e.index (some (new_slot gap max_len b.regions e)) none inside in
          let got : get_or (set b.slots e.index (some (new_slot gap max_len b.regions e))) e.index
                none
              ≡ some s =
            subst
              (λ i.
                get_or (set b.slots e.index (some (new_slot gap max_len b.regions e))) i none
                ≡ some s)
              (sym here) set_at in
          let eq : new_slot gap max_len b.regions e ≡ s = some_inj (sym new ∙ got) in
          (
            item,
            e.start,
            e.len,
            subst (λ i. get_elem? items i ≡ some item) at_j found,
            there,
            subst (λ s. Fits (regions_with gap max_len b.regions e) s e.start e.len) eq
                (regions_with-Fits gap max_len b.regions e before),
          )
      | inr other ↦
          let away : e.index ≢ i = ground arith in
          let old =
            get_or-set_other b.slots e.index i (some (new_slot gap max_len b.regions e)) none
              away in
          let (it, start, len, p, q, fits) = h.placed i s (sym old ∙ set_at) in
          (it, start, len, p, q, regions_with-keeps gap max_len b.regions e s start len fits)
    ];
  }
    where
      some_inj : {x y : Slot} → some x ≡ some y → x ≡ y
      some_inj p = ground arith

  -- A slot that was set stays set, and each entry's slot is set.
  abbrev HasSlot : Building → ℕ → Type 0
  HasSlot b i = get_or b.slots i none ≢ none

  place-HasSlot :
      (b : Building) (e : Entry)
      → IsEntry 0 items e
      → IsBuilt b
      → HasSlot (place gap max_len b e) e.index
  unfolding place
  place-HasSlot b e (j, item, at, found, there) h unset =
      let inside : e.index < length b.slots =
        omega (arith, get_elem?-lt items j item found, h.sized) in
      let new = get_or-set b.slots e.index (some (new_slot gap max_len b.regions e)) none inside in
      absurd (some_none (sym new ∙ unset))
    where
      some_none : {x : Slot} → some x ≡ none → ⊥
      some_none p = ground arith

  place-keeps_HasSlot :
      (b : Building) (e : Entry) (i : ℕ)
      → IsEntry 0 items e
      → IsBuilt b
      → HasSlot b i
      → HasSlot (place gap max_len b e) i
  place-keeps_HasSlot b e i entry built h = elim (Bool-cases (e.index == i)) [
    | inl same ↦
        let here : e.index ≡ i = ground arith in
        subst (HasSlot (place gap max_len b e)) here (place-HasSlot b e entry built)
    | inr other ↦
        let away : e.index ≢ i = ground arith in
        unfold place in
        λ unset. h (
          sym
            (get_or-set_other b.slots e.index i (some (new_slot gap max_len b.regions e)) none away)
          ∙ unset)
  ]

  -- What the loop leaves, from a start where the last region begins before what is still to come.
  place_all-IsBuilt :
      (b : Building) (es : List Entry) (lo : ℕ)
      → All (IsEntry 0 items) es
      → IsAscending lo es
      → (0 < length b.regions → (last_of b.regions).address ≤ lo)
      → IsBuilt b
      → IsBuilt (place_all gap max_len b es)
        × All (λ e. HasSlot (place_all gap max_len b es) e.index) es
        × ((i : ℕ) → HasSlot b i → HasSlot (place_all gap max_len b es) i)
  unfolding place_all
  place_all-IsBuilt b [] lo a up before h = (h, tt, λ i k. k)
  place_all-IsBuilt b (e ∷ es) lo a up before h =
      let early : 0 < length b.regions → (last_of b.regions).address ≤ e.start =
        λ k. omega (arith, before k, up.0) in
      let (built, all_set, keeps) =
        place_all-IsBuilt (place gap max_len b e) es e.start a.1 up.1 (λ k. (last_place early).1)
          (place-IsBuilt b e a.0 early h) in
      (
        built,
        (keeps e.index (place-HasSlot b e a.0 h), all_set),
        λ i k. keeps i (place-keeps_HasSlot b e i a.0 h k),
      )
    where
      last_place :
          (0 < length b.regions → (last_of b.regions).address ≤ e.start)
          → (0 < length (place gap max_len b e).regions)
            × ((last_of (place gap max_len b e).regions).address ≤ e.start)
            × (e.start + e.len
                ≤ (last_of (place gap max_len b e).regions).address
                  + (last_of (place gap max_len b e).regions).len)
      last_place early = unfold place in regions_with-last gap max_len b.regions e early

  abbrev start_from : Building
  start_from = record { regions = []; slots = replicate (length items) none }

  start_from-IsBuilt : IsBuilt start_from
  start_from-IsBuilt = record {
    sized = length-replicate (length items) none;
    placed = λ i s set_at. absurd (unset s (sym (get_or-replicate (length items) i none) ∙ set_at));
  }
    where
      unset : (s : Slot) → none ≡ some s → ⊥
      unset s p = ground arith

  with_limits-IsBuilt :
      IsBuilt (place_all gap max_len start_from (sort (entries 0 items)))
      × All
          (λ e. HasSlot (place_all gap max_len start_from (sort (entries 0 items))) e.index)
          (entries 0 items)
  with_limits-IsBuilt =
      let es = entries 0 items in
      let (built, all_set, keeps) =
        place_all-IsBuilt start_from (sort es) 0
          (sort-All (IsEntry 0 items) es (entries-IsEntry 0 items)) (sort-IsAscending es)
          (λ k. absurd (none_yet k)) start_from-IsBuilt in
      (
        built,
        sort-All_inv (λ e. HasSlot (place_all gap max_len start_from (sort es)) e.index) es all_set,
      )
    where
      none_yet : 0 < length start_from.regions → ⊥
      none_yet k = ground arith

  pub with_limits-Fits :
      (i : ℕ) (item : ReadItem)
      → get_elem? items i ≡ some item
      → ((start len : ℕ)
          → span item ≡ some (start, len)
          → (s : Slot) × (get_or (with_limits items gap max_len).slots i none ≡ some s)
            × Fits (with_limits items gap max_len).regions s start len)
        × (span item ≡ none → get_or (with_limits items gap max_len).slots i none ≡ none)
  unfolding with_limits
  with_limits-Fits i item found = elim (Option-cases (get_or b.slots i none)) [
    | inr (s, e) ↦
        let (it, first, size, there, its_span, fits) = built.placed i s e in
        let same : it ≡ item = same_some (sym there ∙ found) in
        let spans : span item ≡ some (first, size) = ap span (sym same) ∙ its_span in
        (
          λ start len h.
              let (p, q) = same_span (sym spans ∙ h) in
              (
                s,
                e,
                subst (λ n. Fits b.regions s n len) p
                    (subst (λ n. Fits b.regions s first n) q fits),
              ),
          λ h. absurd (some_none (sym spans ∙ h)),
        )
    | inl e ↦ (
      λ start len h. absurd (
          entries-All (λ x. HasSlot b x.index) 0 i items item start len all_set found h
            (rw zero_index e)),
      λ h. e,
    )
  ]
    where
      b : Building
      b = place_all gap max_len start_from (sort (entries 0 items))

      built : IsBuilt b
      built = with_limits-IsBuilt.0

      all_set : All (λ e. HasSlot b e.index) (entries 0 items)
      all_set = with_limits-IsBuilt.1

      zero_index : 0 + i ≡ i
      zero_index = omega arith

      same_some : {x y : ReadItem} → some x ≡ some y → x ≡ y
      same_some p = ground arith

      same_span :
          {x y z w : ℕ} → ◌≡◌ {A = Option (ℕ × ℕ)} (some (x, y)) (some (z, w)) → (x ≡ z) × (y ≡ w)
      same_span p = (ground arith, ground arith)

      some_none : {x : ℕ × ℕ} → some x ≡ none → ⊥
      some_none p = ground arith
