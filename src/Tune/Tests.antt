-- ===== src/Tune/Tests.antt =====
-- A tuner of the table with one value, and the theorems about tuners at it.
use tuning_tools.Base.{◌≡◌, ◌⊎◌, refl, true, none, some, [], ◌∷◌, get_or, arith}
use tuning_tools.Carrier.Ram.{poke, bytes_at}
use tuning_tools.Carrier.Mock
use tuning_tools.Carrier.Mock.{MockLink, mock_memory, touches}
use tuning_tools.Float.Sample.{sample_floats}
use tuning_tools.Message.{ok}
use tuning_tools.ReadPlan.{Slot}
use tuning_tools.ReadPlan.Slots.{Fits}
use tuning_tools.Catalog.{
  Catalog, entry, find_entry, request_bits, kind_from_tag, access_from_tag, decode,
}
use tuning_tools.Catalog.Read
use tuning_tools.Catalog.Read.Tests.{layout, gain, target}
use tuning_tools.Tune.{CatalogCheck, Tuner, new, request, verify, discard, same_entries}
use tuning_tools.Tune.Guards.{Requests, request-Requests, discard-keeps, verify-matches}
use tuning_tools.Tune.Cells.{new-Fits}

abbrev gains : Catalog
gains = record { address = 256; symbol = []; entries = gain ∷ [] }

abbrev tuner : Tuner
tuner = record {
  layout = layout;
  catalog = gains;
  plan = record { items = []; slots = []; regions = [] };
  check = CatalogCheck.matches;
}

-- 12 and 20 are the sample floats of 3 and 5, which the value takes.
request-Requests_example :
    Requests sample_floats mock_memory
      (λ bs. some bs)
      tuner
      77
      12
      target
      (request sample_floats mock_memory (λ bs. some bs) tuner 77 12 target)
request-Requests_example =
    request-Requests sample_floats mock_memory (λ bs. some bs) tuner 77 12 target

writes_three :
    bytes_at (request sample_floats mock_memory (λ bs. some bs) tuner 77 12 target).1.ram 808 4
    ≡ 3 ∷ 0 ∷ 0 ∷ 0 ∷ []
unfolding request Mock.write poke bytes_at entry request_bits
writes_three = refl

discard-keeps_example :
    (discard sample_floats mock_memory (λ bs. some bs) (new layout gains) target).1 ≡ target
unfolding new
discard-keeps_example =
    discard-keeps sample_floats mock_memory (λ bs. some bs) (new layout gains) target
      (λ p. ground arith)

abbrev checking : Tuner
checking = new layout gains

finds_equal :
    (verify sample_floats mock_memory (λ bs. some bs) checking target).1.0.check
    ≡ CatalogCheck.matches
unfolding new verify Read.read Mock.read touches bytes_at poke kind_from_tag access_from_tag
    find_entry decode
finds_equal = refl

verify-matches_example :
    ((checking.check ≡ CatalogCheck.matches)
      ⊎ ((live : Catalog) × ((Read.read sample_floats
              (λ bs. some bs)
              mock_memory
              checking.layout
              target).0
            ≡ ok live)
          × (same_entries sample_floats live.entries checking.catalog.entries ≡ true)))
    × (mock_memory.byte (verify sample_floats mock_memory (λ bs. some bs) checking target).1.1
        ≡ mock_memory.byte target)
verify-matches_example =
    verify-matches sample_floats mock_memory (λ bs. some bs) checking target finds_equal

new-Fits_example :
    ((s : Slot) × (get_or (new layout gains).plan.slots 0 none ≡ some s)
      × Fits (new layout gains).plan.regions s 808 4)
    × ((s : Slot) × (get_or (new layout gains).plan.slots 1 none ≡ some s)
        × Fits (new layout gains).plan.regions s 812 4)
new-Fits_example = new-Fits layout gains 0 gain refl
