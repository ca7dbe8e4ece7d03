-- ===== src/Tune/Cells.antt =====
-- The plan of a tuner: where it samples the cells of each entry.
use tuning_tools.Base.{
  ℕ, zero, suc, ◌+◌, ◌*◌, ◌≡◌, refl, arith, none, some, List, [], ◌∷◌, get_elem?, get_or,
}
use tuning_tools.ReadPlan.{Slot, VariableType, span, scalar_len, with_limits}
use tuning_tools.ReadPlan.Slots.{Fits, with_limits-Fits}
use tuning_tools.ReadPlan
use tuning_tools.Catalog.{
  Catalog, CatalogEntry, CellKind, scalar, item, requested_item, applied_item,
}
use tuning_tools.Catalog.Read.{TableLayout}
use tuning_tools.Tune.{tune_items, new}

tune_items-at :
    (k i : ℕ) (es : List CatalogEntry) (e : CatalogEntry)
    → get_elem? es i ≡ some e
    → (get_elem? (tune_items k es) (2 * i) ≡ some (requested_item e (2 * (k + i))))
      × (get_elem? (tune_items k es) (2 * i + 1) ≡ some (applied_item e (2 * (k + i) + 1)))
unfolding tune_items
tune_items-at k i [] e h = absurd (ground arith)
tune_items-at k zero (x ∷ es) e h =
    let same : x ≡ e = ground arith in
    let here : k + 0 ≡ k = omega arith in rw (same, here) (refl, refl)
tune_items-at k (suc i) (x ∷ es) e h =
    let there : k + suc i ≡ suc k + i = omega arith in
    let even : 2 * suc i ≡ suc (suc (2 * i)) = omega arith in
    let odd : suc (suc (2 * i)) + 1 ≡ suc (suc (2 * i + 1)) = omega arith in
    rw (there, even, odd) (tune_items-at (suc k) i es e h)

scalar_len-scalar : (k : CellKind) → scalar_len (scalar k) ≡ some 4
unfolding scalar_len scalar
scalar_len-scalar CellKind.f32 = refl
scalar_len-scalar CellKind.i32 = refl
scalar_len-scalar CellKind.u32 = refl
scalar_len-scalar CellKind.bool = refl

span-item : (e : CatalogEntry) (id address : ℕ) → span (item e id address) ≡ some (address, 4)
unfolding span item
span-item e id address = rw (scalar_len-scalar e.kind)

-- The plan of a new tuner reads each entry's two cells: the slot numbered twice the entry's place stands
-- for the four bytes of its requested cell, and the next one for those of its applied cell, each
-- inside one of the plan's regions.
pub new-Fits :
    (layout : TableLayout) (catalog : Catalog) (i : ℕ) (e : CatalogEntry)
    → get_elem? catalog.entries i ≡ some e
    → ((s : Slot) × (get_or (new layout catalog).plan.slots (2 * i) none ≡ some s)
        × Fits (new layout catalog).plan.regions s e.requested_address 4)
      × ((s : Slot) × (get_or (new layout catalog).plan.slots (2 * i + 1) none ≡ some s)
          × Fits (new layout catalog).plan.regions s e.applied_address 4)
unfolding new ReadPlan.new requested_item applied_item
new-Fits layout catalog i e h =
    let items = tune_items 0 catalog.entries in
    let (even, odd) = tune_items-at 0 i catalog.entries e h in
    (
      (with_limits-Fits items 64 512 (2 * i) (requested_item e (2 * (0 + i))) even).0
          e.requested_address 4 (span-item e (2 * (0 + i)) e.requested_address),
      (with_limits-Fits items 64 512 (2 * i + 1) (applied_item e (2 * (0 + i) + 1)) odd).0
          e.applied_address 4 (span-item e (2 * (0 + i) + 1) e.applied_address),
    )
