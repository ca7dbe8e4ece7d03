-- ===== src/Catalog/Read/Image.antt =====
-- crates/studio-core/src/catalog.rs: `ElfImage`, target memory as the ELF initialises it. The sections
-- are those that `parse` keeps, each with its run address.
use tuning_tools.Base.{ℕ, ◌+◌, ◌-◌, ◌&&◌, List, [], ◌∷◌, length, take, drop, leb, if◌then◌else◌}
use tuning_tools.Carrier.{CarrierError, Result, ok, err}

pub record ElfImage : Type 0 where
  pub sections : List (ℕ × List ℕ)

-- The bytes of the first section that holds the whole range.
unfoldable pub read_section : List (ℕ × List ℕ) → ℕ → ℕ → Result (List ℕ)
read_section [] address n = err (CarrierError.read address n "not initialised by the ELF")
read_section ((start, bytes) ∷ rest) address n =
    if leb start address && leb (address + n) (start + length bytes)
    then ok (take n (drop (address - start) bytes))
    else read_section rest address n

unfoldable pub read : ElfImage → ℕ → ℕ → Result (List ℕ)
unfolding read_section
read image address n = read_section image.sections address n

unfoldable pub write : ElfImage → ℕ → List ℕ → Result (Unit {0})
write image address bytes =
    err (CarrierError.write address (length bytes) "the ELF image is read-only")
