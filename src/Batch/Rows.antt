-- ===== src/Batch/Rows.antt =====
-- A batch as the list of its ticks, each with its row, and its columns read off the rows.
use tuning_tools.Base.{
  ℕ, zero, suc, ◌^◌, ◌+◌, ◌*◌, ◌<◌, ◌≡◌, refl, sym, ap, ◌∙◌, some, List, [], ◌∷◌, ◌++◌, arith, All,
  length, length-append, append_assoc, get_or, get_elem?,
}
use tuning_tools.Batch.{SampleBatch, collect, column}

abbrev pub Tick : Type 0
Tick = ℕ × List ℕ

abbrev pub rows_values : List Tick → List ℕ
rows_values [] = []
rows_values (t ∷ ts) = t.1 ++ rows_values ts

abbrev pub rows_times : List Tick → List ℕ
rows_times [] = []
rows_times (t ∷ ts) = t.0 ∷ rows_times ts

abbrev pub batch_of : List ℕ → List Tick → SampleBatch
batch_of ids ts = record { ids = ids; times = rows_times ts; values = rows_values ts }

-- Column `j` of the rows.
abbrev pub column_of : ℕ → List Tick → List ℕ
column_of j [] = []
column_of j (t ∷ ts) = get_or t.1 j 0 ∷ column_of j ts

-- The rows have `c` values each.
abbrev pub AllWide : ℕ → List Tick → Type 0
AllWide c = All (λ t. length t.1 ≡ c)

get_elem?-prefix :
    (xs ys zs : List ℕ) (i k : ℕ)
    → i ≡ length xs + k
    → k < length ys
    → get_elem? (xs ++ (ys ++ zs)) i ≡ some (get_or ys k 0)
get_elem?-prefix [] ys zs i k e h = rw e (let z : 0 + k ≡ k = omega arith in rw z (here ys k h))
  where
    here : (ys : List ℕ) (k : ℕ) → k < length ys → get_elem? (ys ++ zs) k ≡ some (get_or ys k 0)
    here [] k h = absurd (omega arith)
    here (y ∷ ys) zero h = refl
    here (y ∷ ys) (suc k) h = here ys k (omega arith)
get_elem?-prefix (x ∷ xs) ys zs zero k e h = absurd (omega arith)
get_elem?-prefix (x ∷ xs) ys zs (suc i) k e h = get_elem?-prefix xs ys zs i k (omega arith) h

pub length-rows_times : (ts : List Tick) → length (rows_times ts) ≡ length ts
length-rows_times [] = refl
length-rows_times (t ∷ ts) = ap suc (length-rows_times ts)

-- `pre` holds the `i` rows before.
collect-column :
    (c j i : ℕ) (values pre : List ℕ) (ts : List Tick)
    → j < c
    → AllWide c ts
    → values ≡ pre ++ rows_values ts
    → length pre ≡ i * c
    → collect i (length ts) (λ r. get_elem? values (r * c + j)) ≡ some (column_of j ts)
unfolding collect
collect-column c j i values pre [] h w e p = refl
collect-column c j i values pre (t ∷ ts) h (wide, more) e p =
    let first : get_elem? values (i * c + j) ≡ some (get_or t.1 j 0) =
      rw e (get_elem?-prefix pre t.1 (rows_values ts) (i * c + j) j (omega arith) (omega arith)) in
    let rest =
      collect-column c j (suc i) values (pre ++ t.1) ts h more
        (e ∙ sym (append_assoc pre t.1 (rows_values ts))) (grind (arith, length-append pre t.1)) in
    rw (first, rest)

-- A column of a batch holds what its rows have there, in the order of the ticks.
pub column-batch_of :
    (ids : List ℕ) (ts : List Tick) (j : ℕ)
    → j < length ids
    → AllWide (length ids) ts
    → column (batch_of ids ts) j ≡ some (column_of j ts)
unfolding column
column-batch_of ids ts j h w =
    rw (length-rows_times ts)
      (collect-column (length ids) j 0 (rows_values ts) [] ts h w refl (omega arith))

-- The columns of the rows with their ids, from the `j`th on.
abbrev pub columns_of : ℕ → List ℕ → List Tick → List (ℕ × List ℕ)
columns_of j [] ts = []
columns_of j (id ∷ ids) ts = (id, column_of j ts) ∷ columns_of (suc j) ids ts

-- Times and values are 64 bits each.
abbrev pub AllWords : List Tick → Type 0
AllWords = All (λ t. (t.0 < 2 ^ 64) × All (λ v. v < 2 ^ 64) t.1)

get_or-word : (vs : List ℕ) (j : ℕ) → All (λ v. v < 2 ^ 64) vs → get_or vs j 0 < 2 ^ 64
get_or-word [] j h = omega arith
get_or-word (v ∷ vs) zero h = h.0
get_or-word (v ∷ vs) (suc j) h = get_or-word vs j h.1

pub column_of-words :
    (j : ℕ) (ts : List Tick) → AllWords ts → All (λ v. v < 2 ^ 64) (column_of j ts)
column_of-words j [] h = tt
column_of-words j (t ∷ ts) h = (get_or-word t.1 j h.0.1, column_of-words j ts h.1)

pub rows_times-words : (ts : List Tick) → AllWords ts → All (λ v. v < 2 ^ 64) (rows_times ts)
rows_times-words [] h = tt
rows_times-words (t ∷ ts) h = (h.0.0, rows_times-words ts h.1)

pub length-column_of : (j : ℕ) (ts : List Tick) → length (column_of j ts) ≡ length ts
length-column_of j [] = refl
length-column_of j (t ∷ ts) = ap suc (length-column_of j ts)
