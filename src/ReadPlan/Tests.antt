-- ===== src/ReadPlan/Tests.antt =====
-- The source's own example of a plan, and the theorems at it.
use tuning_tools.Base.{ℕ, ◌≡◌, refl, none, List, [], ◌∷◌, All}
use tuning_tools.ReadPlan.{ReadItem, VariableType, span, new, with_limits}
use tuning_tools.ReadPlan.Limits.{IsShort, with_limits-IsShort}

abbrev item : ℕ → ℕ → VariableType → ReadItem
item id address scalar = record {
  id = id;
  address = address;
  scalar = scalar;
  bit_offset = none;
  bit_size = none;
}

abbrev neighbours : List ReadItem
neighbours =
    item 1 0x20000010 VariableType.f32
    ∷ item 2 0x20000000 VariableType.u32
    ∷ item 3 0x20000100 VariableType.u8
    ∷ []

neighbours_share_a_region :
    (new neighbours).regions
    ≡ record { address = 0x20000000; len = 0x14 } ∷ record { address = 0x20000100; len = 1 } ∷ []
unfolding new span
neighbours_share_a_region = refl

with_limits-IsShort_example :
    All (IsShort neighbours 64 512) (with_limits neighbours 64 512).regions
with_limits-IsShort_example = with_limits-IsShort neighbours 64 512
