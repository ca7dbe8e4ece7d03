-- ===== src/ReadPlan/Limits.antt =====
-- The regions of a plan stay short.
use tuning_tools.Base.{
  ℕ, ◌-◌, ◌≤◌, ◌≡◌, ◌⊎◌, inl, inr, arith, some, none, List, [], ◌∷◌, length, get_elem?, replicate,
  Bool-cases, All, All-set, All-append,
}
use tuning_tools.ReadPlan.{
  ReadItem, span, Region, Entry, Building, entries, sort, last_of, grown, merges, regions_with,
  place, place_all, with_limits,
}
use tuning_tools.ReadPlan.Order.{IsEntry, sort-All, entries-IsEntry}

module _ (items : List ReadItem) (gap max_len : ℕ) where
  -- A region is no longer than the limit, or it is the span of one item.
  abbrev pub IsShort : Region → Type 0
  IsShort r =
      (r.len ≤ max_len)
      ⊎ ((i : ℕ) × (item : ReadItem) × (get_elem? items i ≡ some item)
          × (span item ≡ some (r.address, r.len)))

  regions_with-IsShort :
      (regions : List Region) (e : Entry)
      → IsEntry 0 items e
      → All IsShort regions
      → All IsShort (regions_with gap max_len regions e)
  unfolding regions_with merges
  regions_with-IsShort regions e (j, item, at, found, there) h =
      elim (Bool-cases (merges gap max_len regions e)) [
        | inl joins ↦ rw joins (
            All-set IsShort regions (length regions - 1) (grown (last_of regions) e) h
              (inl (ground arith)))
        | inr opens ↦
            rw opens (All-append IsShort regions (new ∷ []) h (inr (j, item, found, there), tt))
      ]
    where
      new : Region
      new = record { address = e.start; len = e.len }

  place_all-IsShort :
      (b : Building) (es : List Entry)
      → All (IsEntry 0 items) es
      → All IsShort b.regions
      → All IsShort (place_all gap max_len b es).regions
  unfolding place_all place
  place_all-IsShort b [] a h = h
  place_all-IsShort b (e ∷ es) a h =
      place_all-IsShort (place gap max_len b e) es a.1 (regions_with-IsShort b.regions e a.0 h)

  -- Each region of a plan is at most `max_len` bytes long, unless it is the span of a single item.
  pub with_limits-IsShort : All IsShort (with_limits items gap max_len).regions
  unfolding with_limits
  with_limits-IsShort =
      place_all-IsShort (record { regions = []; slots = replicate (length items) none })
        (sort (entries 0 items))
        (sort-All (IsEntry 0 items) (entries 0 items) (entries-IsEntry 0 items)) tt
