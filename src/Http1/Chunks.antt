-- ===== src/Http1/Chunks.antt =====
-- `dechunk` against the chunked encoding.
use usb_camera_over_tailscal.Base.{
  ℕ, suc, ◌+◌, ◌-◌, ◌%◌, ◌^◌, ◌<◌, ◌≤◌, ◌≡◌, ◌≢◌, refl, sym, ap, ap₂, ◌∙◌, false, List, [], ◌∷◌,
  ◌++◌, append-nil, append_assoc, some, arith, ltb, not_ltb, not_leb, ◌==◌, ne→==_false, length,
  length-append, Exec, ok, panic, slice, slice_from, slice_from-append, slice_part,
}
use usb_camera_over_tailscal.Base.Words.{All}
use usb_camera_over_tailscal.Crypto.{Bytes}
use usb_camera_over_tailscal.Net.{ErrorKind}
use usb_camera_over_tailscal.Http1.{find_mark, chunk_size, take_chunk, dechunk_from, dechunk}

-- A chunk as a server writes it: the line with its size, and its bytes.
pub record Chunk : Type 0 where
  pub line : Bytes
  pub bytes : Bytes

abbrev pub NoReturn : Bytes → Type 0
NoReturn line = All (λ b. b ≢ 13) line

-- The line gives the number of the bytes, which is not 0.
pub record IsChunk (c : Chunk) : Type 0 where
  pub plain : NoReturn c.line
  pub size : chunk_size c.line ≡ some (length c.bytes)
  pub some_bytes : 1 ≤ length c.bytes

abbrev pub chunk_text : Chunk → Bytes
chunk_text c = c.line ++ (13 ∷ 10 ∷ (c.bytes ++ (13 ∷ 10 ∷ [])))

abbrev pub chunked : List Chunk → Bytes
chunked [] = []
chunked (c ∷ cs) = chunk_text c ++ chunked cs

abbrev pub bytes_of : List Chunk → Bytes
bytes_of [] = []
bytes_of (c ∷ cs) = c.bytes ++ bytes_of cs

find_mark-line :
    (i : ℕ) (line tail : Bytes)
    → NoReturn line
    → find_mark (13 ∷ 10 ∷ []) i (line ++ (13 ∷ 10 ∷ tail)) ≡ some (i + length line)
unfolding find_mark
find_mark-line i [] tail h = ap some (omega arith)
find_mark-line i (b ∷ line) tail (h, hs) =
    rw (ne→==_false b 13 h) (find_mark-line (i + 1) line tail hs ∙ ap some (omega arith))

-- A turn of the loop reads the line of the chunk.
dechunk_turn :
    (raw pre line tail out : Bytes) (pos n fuel : ℕ)
    → raw ≡ pre ++ (line ++ (13 ∷ 10 ∷ tail))
    → length pre ≡ pos
    → NoReturn line
    → chunk_size line ≡ some n
    → dechunk_from (suc fuel) raw pos out
      ≡ take_chunk (λ p o. dechunk_from fuel raw p o) raw (pos + length line + 2) n out
unfolding dechunk_from
dechunk_turn raw pre line tail out pos n fuel whole at plain size =
    let from : slice_from {E = ErrorKind} raw pos ≡ ok (line ++ (13 ∷ 10 ∷ tail)) =
      ap (λ l. slice_from l pos) whole ∙ slice_from-append pos pre (line ++ (13 ∷ 10 ∷ tail)) at in
    let found : find_mark (13 ∷ 10 ∷ []) 0 (line ++ (13 ∷ 10 ∷ tail)) ≡ some (length line) =
      find_mark-line 0 line tail plain ∙ ap some (omega arith) in
    let cut : slice {E = ErrorKind} raw pos (pos + length line) ≡ ok line =
      slice_part raw pos (pos + length line) pre line (13 ∷ 10 ∷ tail) whole at refl in
    rw (from, found, cut, size) refl

take_chunk-bytes :
    (go : ℕ → Bytes → Exec ErrorKind Bytes) (raw pre bytes tail out : Bytes) (pos : ℕ)
    → raw ≡ pre ++ (bytes ++ tail)
    → length pre ≡ pos
    → 1 ≤ length bytes
    → length raw + 2 < 2 ^ 32
    → take_chunk go raw pos (length bytes) out ≡ go (pos + length bytes + 2) (out ++ bytes)
unfolding take_chunk
take_chunk-bytes go raw pre bytes tail out pos whole at some_bytes small =
    let size : length raw ≡ pos + (length bytes + length tail) =
      omega (arith, ap length whole, length-append pre (bytes ++ tail), length-append bytes tail) in
    let sum : (pos + length bytes) % 2 ^ 32 ≡ pos + length bytes = omega arith in
    let next : (pos + length bytes + 2) % 2 ^ 32 ≡ pos + length bytes + 2 = omega arith in
    let fits : ltb (length raw) (pos + length bytes) ≡ false =
      not_ltb (length raw) (pos + length bytes) (omega arith) in
    let positive : (length bytes == 0) ≡ false = ground arith in
    let cut : slice {E = ErrorKind} raw pos (pos + length bytes) ≡ ok bytes =
      slice_part raw pos (pos + length bytes) pre bytes tail whole at refl in
    rw (positive, sum, fits, cut, next) refl

length-chunk_text : (c : Chunk) → length (chunk_text c) ≡ length c.line + 2 + length c.bytes + 2
length-chunk_text c = omega (
  arith,
  length-append c.line (13 ∷ 10 ∷ (c.bytes ++ (13 ∷ 10 ∷ []))),
  length-append c.bytes (13 ∷ 10 ∷ []),
)

length-behind :
    (pre line : Bytes) (pos : ℕ)
    → length pre ≡ pos
    → length (pre ++ (line ++ (13 ∷ 10 ∷ []))) ≡ pos + length line + 2
length-behind pre line pos at =
    omega (arith, length-append pre (line ++ (13 ∷ 10 ∷ [])), length-append line (13 ∷ 10 ∷ []))

regroup :
    (pre line tail : Bytes)
    → pre ++ (line ++ (13 ∷ 10 ∷ tail)) ≡ (pre ++ (line ++ (13 ∷ 10 ∷ []))) ++ tail
regroup pre line tail = sym (
    append_assoc pre (line ++ (13 ∷ 10 ∷ [])) tail
    ∙ ap (λ l. pre ++ l) (append_assoc line (13 ∷ 10 ∷ []) tail))

-- A chunk and what stands behind its bytes, the line end or not.
dechunk_bytes :
    (raw pre tail out : Bytes) (c : Chunk) (pos fuel : ℕ)
    → IsChunk c
    → raw ≡ pre ++ (c.line ++ (13 ∷ 10 ∷ (c.bytes ++ tail)))
    → length pre ≡ pos
    → length raw + 2 < 2 ^ 32
    → dechunk_from (suc fuel) raw pos out
      ≡ dechunk_from fuel raw (pos + length c.line + 2 + length c.bytes + 2) (out ++ c.bytes)
dechunk_bytes raw pre tail out c pos fuel good whole at small =
    dechunk_turn raw pre c.line (c.bytes ++ tail) out pos (length c.bytes) fuel whole at good.plain
      good.size
    ∙ take_chunk-bytes (λ p o. dechunk_from fuel raw p o) raw (pre ++ (c.line ++ (13 ∷ 10 ∷ [])))
        c.bytes tail out (pos + length c.line + 2) (whole ∙ regroup pre c.line (c.bytes ++ tail))
        (length-behind pre c.line pos at) good.some_bytes small

chunk_split :
    (c : Chunk) (more : Bytes)
    → chunk_text c ++ more ≡ c.line ++ (13 ∷ 10 ∷ (c.bytes ++ (13 ∷ 10 ∷ more)))
chunk_split c more =
    append_assoc c.line (13 ∷ 10 ∷ (c.bytes ++ (13 ∷ 10 ∷ []))) more
    ∙ ap (λ l. c.line ++ (13 ∷ 10 ∷ l)) (append_assoc c.bytes (13 ∷ 10 ∷ []) more)

dechunk_chunks :
    (raw pre rest out : Bytes) (cs : List Chunk) (pos fuel : ℕ)
    → All IsChunk cs
    → raw ≡ pre ++ (chunked cs ++ rest)
    → length pre ≡ pos
    → length raw + 2 < 2 ^ 32
    → dechunk_from (length cs + fuel) raw pos out
      ≡ dechunk_from fuel raw (pos + length (chunked cs)) (out ++ bytes_of cs)
dechunk_chunks raw pre rest out [] pos fuel good whole at small =
    let none_left : 0 + fuel ≡ fuel = omega arith in
    ap (λ n. dechunk_from n raw pos out) none_left
    ∙ ap₂ (λ n o. dechunk_from fuel raw n o) (omega arith) (sym (append-nil out))
dechunk_chunks raw pre rest out (c ∷ cs) pos fuel (good, more) whole at small =
    let tail = chunked cs ++ rest in
    let assoc : (chunk_text c ++ chunked cs) ++ rest ≡ chunk_text c ++ tail =
      append_assoc (chunk_text c) (chunked cs) rest in
    let split = whole ∙ ap (λ l. pre ++ l) assoc in
    let shift : suc (length cs) + fuel ≡ suc (length cs + fuel) = omega arith in
    let next : pos + length c.line + 2 + length c.bytes + 2 ≡ pos + length (chunk_text c) =
      omega (arith, length-chunk_text c) in
    let behind : length (pre ++ chunk_text c) ≡ pos + length (chunk_text c) =
      omega (arith, length-append pre (chunk_text c)) in
    ap (λ n. dechunk_from n raw pos out) shift
    ∙ dechunk_bytes raw pre (13 ∷ 10 ∷ tail) out c pos (length cs + fuel) good
        (split ∙ ap (λ l. pre ++ l) (chunk_split c tail)) at small
    ∙ ap (λ n. dechunk_from (length cs + fuel) raw n (out ++ c.bytes)) next
    ∙ dechunk_chunks raw (pre ++ chunk_text c) rest (out ++ c.bytes) cs
        (pos + length (chunk_text c)) fuel more (split ∙ sym (append_assoc pre (chunk_text c) tail))
        behind small
    ∙ ap₂ (λ n o. dechunk_from fuel raw n o)
        (omega (arith, length-append (chunk_text c) (chunked cs)))
        (append_assoc out c.bytes (bytes_of cs))

count-chunked : (cs : List Chunk) → length cs ≤ length (chunked cs)
count-chunked [] = omega arith
count-chunked (c ∷ cs) =
    omega (arith, count-chunked cs, length-append (chunk_text c) (chunked cs), length-chunk_text c)

-- The loop of `dechunk` behind the chunks that it has taken.
dechunk_behind :
    (cs : List Chunk) (rest : Bytes)
    → All IsChunk cs
    → length (chunked cs ++ rest) + 2 < 2 ^ 32
    → dechunk (chunked cs ++ rest)
      ≡ dechunk_from
          (suc (length (chunked cs ++ rest) - length cs))
          (chunked cs ++ rest)
          (length (chunked cs))
          (bytes_of cs)
unfolding dechunk
dechunk_behind cs rest good small =
    let raw = chunked cs ++ rest in
    let fuel : length raw + 1 ≡ length cs + suc (length raw - length cs) =
      omega (arith, count-chunked cs, length-append (chunked cs) rest) in
    ap (λ n. dechunk_from n raw 0 []) fuel
    ∙ dechunk_chunks raw [] rest [] cs 0 (suc (length raw - length cs)) good refl refl small
    ∙ ap (λ n. dechunk_from (suc (length raw - length cs)) raw n (bytes_of cs)) (omega arith)

slice_from-panic : (bs : Bytes) (n : ℕ) → length bs < n → slice_from {E = ErrorKind} bs n ≡ panic
slice_from-panic bs n h = rw (not_leb n (length bs) h) refl

dechunk_from-panic :
    (fuel : ℕ) (raw out : Bytes) (pos : ℕ)
    → length raw < pos
    → dechunk_from (suc fuel) raw pos out ≡ panic
unfolding dechunk_from
dechunk_from-panic fuel raw out pos h = rw (slice_from-panic raw pos h) refl

-- Chunks that are shorter than 2 ^ 32 - 2 bytes and end before the whole line end behind the bytes of the
-- last one make dechunk panic.
pub dechunk-cut :
    (cs : List Chunk) (c : Chunk) (end : Bytes)
    → All IsChunk cs
    → IsChunk c
    → length end < 2
    → length (chunked cs ++ (c.line ++ (13 ∷ 10 ∷ (c.bytes ++ end)))) + 2 < 2 ^ 32
    → dechunk (chunked cs ++ (c.line ++ (13 ∷ 10 ∷ (c.bytes ++ end)))) ≡ panic
dechunk-cut cs c end good last short small =
    let rest = c.line ++ (13 ∷ 10 ∷ (c.bytes ++ end)) in
    let raw = chunked cs ++ rest in
    let size : length raw
        ≡ length (chunked cs) + (length c.line + (2 + (length c.bytes + length end))) =
      omega (
        arith,
        length-append (chunked cs) rest,
        length-append c.line (13 ∷ 10 ∷ (c.bytes ++ end)),
        length-append c.bytes end,
      ) in
    let fuel : length raw - length cs ≡ suc (length raw - length cs - 1) =
      omega (arith, count-chunked cs) in
    dechunk_behind cs rest good small
    ∙ dechunk_bytes raw (chunked cs) end (bytes_of cs) c (length (chunked cs))
        (length raw - length cs) last refl refl small
    ∙ ap
        (λ n.
          dechunk_from n raw (length (chunked cs) + length c.line + 2 + length c.bytes + 2)
            (bytes_of cs ++ c.bytes))
        fuel
    ∙ dechunk_from-panic (length raw - length cs - 1) raw (bytes_of cs ++ c.bytes) _ (omega arith)
