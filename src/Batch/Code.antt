-- ===== src/Batch/Code.antt =====
-- The frame of a batch reads back.
use tuning_tools.Base.{
  ℕ, suc, ◌+◌, ◌*◌, ◌^◌, ◌<◌, ◌≡◌, refl, sym, ap, ◌∙◌, some, false, subst, List, [], ◌∷◌, ◌++◌,
  arith, All, length, length-append, append_assoc, take-length, drop-length, ltb,
}
use tuning_tools.Base.Bytes.{to_le_bytes, length-to_le_bytes, from_le_bytes-to_le_bytes}
use tuning_tools.Batch.{
  magic, collect, slice, words, header, encode_columns, encode, word_at, decode_columns, decode,
}
use tuning_tools.Batch.Rows.{
  Tick, rows_times, batch_of, AllWide, length-rows_times, column-batch_of, columns_of, AllWords,
  column_of-words, rows_times-words, length-column_of,
}

slice-append :
    (pre mid post : List ℕ) → slice (pre ++ (mid ++ post)) (length pre) (length mid) ≡ some mid
slice-append pre mid post =
    let long : ltb (length (pre ++ (mid ++ post))) (length pre + length mid) ≡ false =
      ground (arith, length-append pre (mid ++ post), length-append mid post) in
    rw (long, drop-length pre (mid ++ post), take-length mid post)

word_at-append :
    (n x : ℕ) (bytes pre post : List ℕ) (at : ℕ)
    → bytes ≡ pre ++ (to_le_bytes n x ++ post)
    → at ≡ length pre
    → x < 256 ^ n
    → word_at n bytes at ≡ some x
unfolding word_at
word_at-append n x bytes pre post at e a h =
    let whole : slice (pre ++ (to_le_bytes n x ++ post)) (length pre) n ≡ some (to_le_bytes n x) =
      subst (λ k. slice (pre ++ (to_le_bytes n x ++ post)) (length pre) k ≡ some (to_le_bytes n x))
        (length-to_le_bytes n x) (slice-append pre (to_le_bytes n x) post) in
    rw (e, a) (rw whole (rw (from_le_bytes-to_le_bytes n x h)))

words_at-append :
    (vs : List ℕ) (bytes pre post : List ℕ) (base i : ℕ)
    → bytes ≡ pre ++ (words vs ++ post)
    → length pre ≡ base + 8 * i
    → All (λ v. v < 2 ^ 64) vs
    → collect i (length vs) (λ k. word_at 8 bytes (base + 8 * k)) ≡ some vs
unfolding collect
words_at-append [] bytes pre post base i e p h = refl
words_at-append (v ∷ vs) bytes pre post base i e p (hv, hvs) =
    let first : word_at 8 bytes (base + 8 * i) ≡ some v =
      word_at-append 8 v bytes pre (words vs ++ post) (base + 8 * i) e (sym p) (omega arith) in
    let rest =
      words_at-append vs bytes (pre ++ to_le_bytes 8 v) post base (suc i)
        (e ∙ sym (append_assoc pre (to_le_bytes 8 v) (words vs ++ post)))
        (omega (arith, length-append pre (to_le_bytes 8 v))) hvs in
    rw (first, rest)

length-words : (vs : List ℕ) → length (words vs) ≡ 8 * length vs
length-words [] = omega arith
length-words (v ∷ vs) = omega (arith, length-words vs)

-- Columns with their ids, as a frame holds them.
abbrev pub column_bytes : List (ℕ × List ℕ) → List ℕ
column_bytes [] = []
column_bytes ((id, vs) ∷ cs) =
    to_le_bytes 4 id ++ (to_le_bytes 4 0 ++ (words vs ++ column_bytes cs))

abbrev AreColumns : ℕ → List (ℕ × List ℕ) → Type 0
AreColumns n = All (λ c. (c.0 < 2 ^ 32) × (length c.1 ≡ n) × All (λ v. v < 2 ^ 64) c.1)

decode_columns-column_bytes :
    (cs : List (ℕ × List ℕ)) (bytes pre : List ℕ) (n at : ℕ)
    → bytes ≡ pre ++ column_bytes cs
    → at ≡ length pre
    → AreColumns n cs
    → decode_columns (length cs) bytes n at ≡ some cs
unfolding decode_columns
decode_columns-column_bytes [] bytes pre n at e a h = refl
decode_columns-column_bytes ((id, vs) ∷ cs) bytes pre n at e a ((small, len, fit), more) =
    let behind = words vs ++ column_bytes cs in
    let zeros = to_le_bytes 4 0 ++ behind in
    let front = pre ++ (to_le_bytes 4 id ++ to_le_bytes 4 0) in
    let split : bytes ≡ front ++ behind =
      e ∙ sym (append_assoc pre (to_le_bytes 4 id ++ to_le_bytes 4 0) behind) in
    let eight : length front ≡ at + 8 =
      omega (arith, length-append pre (to_le_bytes 4 id ++ to_le_bytes 4 0)) in
    let first : word_at 4 bytes at ≡ some id =
      word_at-append 4 id bytes pre zeros at e a (omega arith) in
    let values : collect 0 n (λ i. word_at 8 bytes (at + 8 + 8 * i)) ≡ some vs = rw (← len) (
      words_at-append vs bytes front (column_bytes cs) (at + 8) 0 split (omega (arith, eight))
        fit) in
    let rest : decode_columns (length cs) bytes n (at + 8 + 8 * n) ≡ some cs =
      decode_columns-column_bytes cs bytes (front ++ words vs) n (at + 8 + 8 * n)
        (split ∙ sym (append_assoc front (words vs) (column_bytes cs)))
        (omega (arith, length-append front (words vs), length-words vs, eight, len)) more in
    rw (first, values, rest)

encode_columns-columns_of :
    (all : List ℕ) (ts : List Tick) (j : ℕ) (ids : List ℕ)
    → j + length ids ≡ length all
    → AllWide (length all) ts
    → encode_columns (batch_of all ts) j ids ≡ some (column_bytes (columns_of j ids ts))
unfolding encode_columns
encode_columns-columns_of all ts j [] e w = refl
encode_columns-columns_of all ts j (id ∷ ids) e w = rw (
  column-batch_of all ts j (omega arith) w,
  encode_columns-columns_of all ts (suc j) ids (omega arith) w,
)

columns_of-AreColumns :
    (j : ℕ) (ids : List ℕ) (ts : List Tick)
    → All (λ id. id < 2 ^ 32) ids
    → AllWords ts
    → AreColumns (length ts) (columns_of j ids ts)
columns_of-AreColumns j [] ts h w = tt
columns_of-AreColumns j (id ∷ ids) ts h w = (
  (h.0, length-column_of j ts, column_of-words j ts w),
  columns_of-AreColumns (suc j) ids ts h.1 w,
)

length-columns_of :
    (j : ℕ) (ids : List ℕ) (ts : List Tick) → length (columns_of j ids ts) ≡ length ids
length-columns_of j [] ts = refl
length-columns_of j (id ∷ ids) ts = ap suc (length-columns_of (suc j) ids ts)

-- The batch fits its frame: `u32` counts and ids, rows of one value for each id, 64-bit values.
pub record IsWhole (ids : List ℕ) (ts : List Tick) : Type 0 where
  pub few_ids : length ids < 2 ^ 32
  pub few_ticks : length ts < 2 ^ 32
  pub small_ids : All (λ id. id < 2 ^ 32) ids
  pub wide : AllWide (length ids) ts
  pub fit : AllWords ts

abbrev pub frame_of : List ℕ → List Tick → List ℕ
frame_of ids ts =
    header (length (rows_times ts)) (length ids)
    ++ (words (rows_times ts) ++ column_bytes (columns_of 0 ids ts))

pub encode-AllWide :
    (ids : List ℕ) (ts : List Tick)
    → AllWide (length ids) ts
    → encode (batch_of ids ts) ≡ some (frame_of ids ts)
unfolding encode
encode-AllWide ids ts w = rw (encode_columns-columns_of ids ts 0 ids (omega arith) w)

pub encode-batch_of :
    (ids : List ℕ) (ts : List Tick)
    → IsWhole ids ts
    → encode (batch_of ids ts) ≡ some (frame_of ids ts)
encode-batch_of ids ts h = encode-AllWide ids ts h.wide

pub decode-frame_of :
    (ids : List ℕ) (ts : List Tick)
    → IsWhole ids ts
    → decode (frame_of ids ts)
      ≡ some (record { times = rows_times ts; columns = columns_of 0 ids ts })
unfolding decode
decode-frame_of ids ts h = rw (m, n, c, times, columns)
  where
    bytes : List ℕ
    bytes = frame_of ids ts

    behind : List ℕ
    behind = words (rows_times ts) ++ column_bytes (columns_of 0 ids ts)

    k : ℕ
    k = length (rows_times ts)

    m : word_at 4 bytes 0 ≡ some magic
    m =
        word_at-append 4 magic bytes []
          (to_le_bytes 4 k ++ (to_le_bytes 4 (length ids) ++ (to_le_bytes 4 0 ++ behind))) 0 refl
          refl (omega arith)

    n : word_at 4 bytes 4 ≡ some k
    n =
        word_at-append 4 k bytes (to_le_bytes 4 magic)
          (to_le_bytes 4 (length ids) ++ (to_le_bytes 4 0 ++ behind)) 4 refl refl
          (omega (arith, length-rows_times ts, h.few_ticks))

    c : word_at 4 bytes 8 ≡ some (length ids)
    c =
        word_at-append 4 (length ids) bytes (to_le_bytes 4 magic ++ to_le_bytes 4 k)
          (to_le_bytes 4 0 ++ behind) 8 refl refl (omega (arith, h.few_ids))

    times : collect 0 k (λ i. word_at 8 bytes (16 + 8 * i)) ≡ some (rows_times ts)
    times =
        words_at-append (rows_times ts) bytes (header k (length ids))
          (column_bytes (columns_of 0 ids ts)) 16 0 refl (omega arith) (rows_times-words ts h.fit)

    columns : decode_columns (length ids) bytes k (16 + 8 * k) ≡ some (columns_of 0 ids ts)
    columns =
        subst (λ c. decode_columns c bytes k (16 + 8 * k) ≡ some (columns_of 0 ids ts))
          (length-columns_of 0 ids ts)
          (decode_columns-column_bytes (columns_of 0 ids ts) bytes
            (header k (length ids) ++ words (rows_times ts)) k (16 + 8 * k) refl
            (omega (arith, length-words (rows_times ts)))
            (subst (λ n. AreColumns n (columns_of 0 ids ts)) (sym (length-rows_times ts))
              (columns_of-AreColumns 0 ids ts h.small_ids h.fit)))
