-- ===== src/Catalog/Cells.antt =====
-- What a request writes into a cell, and what the cell's bits are read as.
use tuning_tools.Base.{ℕ, ◌-◌, ◌<◌, ◌^◌, ◌≡◌, refl, ◌∙◌, arith, true, false, leb}
use tuning_tools.Float.{Floats}
use tuning_tools.Message.{Message, Except, ok, err}
use tuning_tools.Catalog.{CellKind, decode, encode}

module _ (fl : Floats) where
  -- The bits that a cell of the kind can hold: a `u32`, a flag, or an `f32` that is not finite.
  abbrev pub IsCell : CellKind → ℕ → Type 0
  IsCell CellKind.f32 bits = (bits < 2 ^ 32) × (fl.f32_is_finite bits ≡ false)
  IsCell CellKind.i32 bits = bits < 2 ^ 32
  IsCell CellKind.u32 bits = bits < 2 ^ 32
  IsCell CellKind.bool bits = bits < 2

  -- What a cell's own value comes to when it is requested.
  abbrev pub requested_again : CellKind → ℕ → Except Message ℕ
  requested_again CellKind.f32 bits = err Message.not_a_number
  requested_again kind bits = ok bits

  -- The value of an integer cell of 32 bits, or of a flag whose cell holds 0 or 1, can be requested again
  -- and yields the cell's own bits; that of an `f32` cell that is not finite is refused as no number.
  -- Nothing is said of a finite `f32`, whose value comes from its decimal text, nor of a flag's other bits.
  pub encode-decode :
      (kind : CellKind) (bits : ℕ)
      → IsCell kind bits
      → encode fl kind (decode fl kind bits) ≡ requested_again kind bits
  unfolding encode decode
  encode-decode CellKind.f32 bits (small, infinite) =
      let refused : fl.is_finite (fl.from_f32 bits) ≡ false =
        fl.finite_from_f32 bits small ∙ infinite in
      rw (infinite, refused) refl
  encode-decode CellKind.i32 bits h = rw (
    fl.finite_i32 bits h,
    fl.whole_i32 bits h,
    fl.above_i32 bits h,
    fl.below_i32 bits h,
    fl.to_of_i32 bits h,
  )
  encode-decode CellKind.u32 bits h =
      let low : leb 0 bits ≡ true = ground arith in
      let high : leb bits (2 ^ 32 - 1) ≡ true = ground arith in
      rw (
        fl.finite_u32 bits h,
        fl.whole_u32 bits h,
        fl.le_u32 0 bits (omega arith) h,
        fl.le_u32 bits (2 ^ 32 - 1) h (omega arith),
        low,
        high,
        fl.to_of_u32 bits h,
      )
  encode-decode CellKind.bool bits h =
      let small : bits < 2 ^ 32 = omega arith in
      ground (
        arith,
        fl.finite_u32 bits small,
        fl.eq_u32 bits 0 small (omega arith),
        fl.eq_u32 bits 1 small (omega arith),
        fl.to_of_u32 bits small,
      )
