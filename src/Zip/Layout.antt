-- ===== src/Zip/Layout.antt =====
-- What the headers of an archive are, byte by byte, and that chunks are concatenated.
use alt_sendme.Prelude.{
  ◌>>=◌, ℕ, zero, suc, ◌+◌, ◌≡◌, refl, ◌∙◌, some, List, [], ◌∷◌, ◌++◌, length, replicate, arith, ap,
  append_assoc, length-replicate, length-append,
}
use alt_sendme.Zip.Bytes.{overwrite, set_bytes, uint16, uint32, total, set_chunks, concat_chunks}
use alt_sendme.Zip.Headers.{local_header, central_header, end_record}

abbrev zeros : ℕ → List ℕ
zeros n = replicate n 0

replicate-add : (m n : ℕ) → zeros (m + n) ≡ zeros m ++ zeros n
replicate-add zero n = let e : 0 + n ≡ n = omega arith in rw e
replicate-add (suc m) n =
    let e : suc m + n ≡ suc (m + n) = omega arith in rw e (ap (◌∷◌ 0) (replicate-add m n))

overwrite-append :
    (z rest bytes : List ℕ)
    → length z ≡ length bytes
    → overwrite (z ++ rest) bytes ≡ some (bytes ++ rest)
overwrite-append [] rest [] e = ground arith
overwrite-append [] rest (b ∷ bytes) e = cc
overwrite-append (x ∷ z) rest [] e = cc
overwrite-append (x ∷ z) rest (b ∷ bytes) e = rw (overwrite-append z rest bytes (omega arith))

set_bytes-append :
    (before z rest bytes : List ℕ)
    → length z ≡ length bytes
    → set_bytes (before ++ (z ++ rest)) (length before) bytes ≡ some (before ++ (bytes ++ rest))
set_bytes-append [] z rest bytes e = overwrite-append z rest bytes e
set_bytes-append (x ∷ before) z rest bytes e = rw (set_bytes-append before z rest bytes e)

set_last : (name : List ℕ) → overwrite (zeros (length name)) name ≡ some name
set_last [] = refl
set_last (b ∷ name) = rw (set_last name)

abbrev pub local_bytes : List ℕ → ℕ → ℕ → List ℕ
local_bytes name crc size =
    uint32 0x04034b50
    ++ uint16 20
    ++ uint16 0
    ++ uint16 0
    ++ uint16 0
    ++ uint16 0
    ++ uint32 crc
    ++ uint32 size
    ++ uint32 size
    ++ uint16 (length name)
    ++ uint16 0
    ++ name

pub local_header_lem :
    (name : List ℕ) (crc size : ℕ) → local_header name crc size ≡ some (local_bytes name crc size)
unfolding local_header
local_header_lem name crc size = rw (replicate-add 30 (length name), set_last name)

abbrev pub central_bytes : List ℕ → ℕ → ℕ → ℕ → List ℕ
central_bytes name crc size offset =
    uint32 0x02014b50
    ++ uint16 20
    ++ uint16 20
    ++ uint16 0
    ++ uint16 0
    ++ uint16 0
    ++ uint16 0
    ++ uint32 crc
    ++ uint32 size
    ++ uint32 size
    ++ uint16 (length name)
    ++ uint16 0
    ++ uint16 0
    ++ uint16 0
    ++ uint16 0
    ++ uint32 0
    ++ uint32 offset
    ++ name

pub central_header_lem :
    (name : List ℕ) (crc size offset : ℕ)
    → central_header name crc size offset ≡ some (central_bytes name crc size offset)
unfolding central_header
central_header_lem name crc size offset = rw (replicate-add 46 (length name), set_last name)

abbrev pub end_bytes : ℕ → ℕ → ℕ → List ℕ
end_bytes count size offset =
    uint32 0x06054b50
    ++ uint16 0
    ++ uint16 0
    ++ uint16 count
    ++ uint16 count
    ++ uint32 size
    ++ uint32 offset
    ++ uint16 0

pub end_record_lem :
    (count size offset : ℕ) → end_record count size offset ≡ some (end_bytes count size offset)
unfolding end_record
end_record_lem count size offset = refl

abbrev pub concat : List (List ℕ) → List ℕ
concat [] = []
concat (chunk ∷ chunks) = chunk ++ concat chunks

set_chunks-zeros :
    (before : List ℕ) (chunks : List (List ℕ))
    → set_chunks (before ++ zeros (total chunks)) (length before) chunks
      ≡ some (before ++ concat chunks)
set_chunks-zeros before [] = refl
set_chunks-zeros before (chunk ∷ chunks) =
    let next : set_chunks (before ++ (chunk ++ zeros (total chunks))) (length before + length chunk)
          chunks
        ≡ some (before ++ (chunk ++ concat chunks)) =
      rw
        (
          ← append_assoc before chunk (zeros (total chunks)),
          ← append_assoc before chunk (concat chunks),
          ← length-append before chunk,
        )
        (set_chunks-zeros (before ++ chunk) chunks) in
    rw (replicate-add (length chunk) (total chunks)) (
      ap (λ o. o >>= λ output. set_chunks output (length before + length chunk) chunks)
        (set_bytes-append before (zeros (length chunk)) (zeros (total chunks)) chunk
          (length-replicate (length chunk) 0))
      ∙ next)

-- The chunks fit, and the result is their concatenation.
pub concat_chunks_lem : (chunks : List (List ℕ)) → concat_chunks chunks ≡ some (concat chunks)
unfolding concat_chunks
concat_chunks_lem chunks = set_chunks-zeros [] chunks
