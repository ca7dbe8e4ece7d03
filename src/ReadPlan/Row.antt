-- ===== src/ReadPlan/Row.antt =====
-- crates/studio-core/src/plan.rs: a tick has a value for each item, whatever could be read.
use tuning_tools.Base.{ℕ, suc, ◌≡◌, refl, ap, ◌∙◌, Option, List, [], ◌∷◌, length, length-replicate}
use tuning_tools.Carrier.{MemoryAccess, Result, ok, err}
use tuning_tools.ReadPlan.{
  ReadItem, ReadPlan, Region, Slot, Value, SampleOutcome, fill, read_into, sample_from, sample,
}

length-fill :
    (index : ℕ) (bytes : List ℕ) (items : List ReadItem) (slots : List (Option Slot))
    (vs : List Value)
    → length (fill index bytes items slots vs) ≡ length vs
unfolding fill
length-fill index bytes [] slots vs = refl
length-fill index bytes (item ∷ items) [] vs = refl
length-fill index bytes (item ∷ items) (s ∷ slots) [] = refl
length-fill index bytes (item ∷ items) (s ∷ slots) (v ∷ vs) =
    ap suc (length-fill index bytes items slots vs)

module _ (c : MemoryAccess) (plan : ReadPlan) where
  open c use {Memory, read}

  length-read_into :
      (index : ℕ) (region : Region) (got : Result (List ℕ)) (vs : List Value) (done : SampleOutcome)
      → length (read_into c plan index region got (vs, done)).0 ≡ length vs
  unfolding read_into
  length-read_into index region (err e) vs done = refl
  length-read_into index region (ok bytes) vs done =
      length-fill index bytes plan.items plan.slots vs

  length-sample_from :
      (index : ℕ) (regions : List Region) (tick : List Value × SampleOutcome) (m : Memory)
      → length (sample_from c plan index regions tick m).0.0 ≡ length tick.0
  unfolding sample_from
  length-sample_from index [] tick m = refl
  length-sample_from index (region ∷ regions) tick m =
      length-sample_from (suc index) regions _ _
      ∙ length-read_into index region (read m region.address region.len).0 tick.0 tick.1

  pub length-sample : (m : Memory) → length (sample c plan m).0.0 ≡ length plan.items
  unfolding sample
  length-sample m =
      length-sample_from 0 plan.regions _ m ∙ length-replicate (length plan.items) Value.nan
