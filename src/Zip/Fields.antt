-- ===== src/Zip/Fields.antt =====
-- What the reader of ZIP archives reads in the headers that frontend/src/lib/web-zip.ts writes.
use alt_sendme.Prelude.{
  ℕ, zero, suc, ◌+◌, ◌*◌, ◌/◌, ◌%◌, ◌<◌, ◌≡◌, refl, some, List, [], ◌∷◌, ◌++◌, length, drop, arith,
  drop-append, take-append, text_eq_refl, ◌==◌, true, ==_iff,
}
use alt_sendme.Zip.Bytes.{crc32}
use alt_sendme.Zip.Layout.{local_bytes, central_bytes}
use alt_sendme.Zip.Reader.{read_content, read_entry, entry_size}

pub read16 : (v : ℕ) → v < 65536 → v % 256 + 256 * (v / 256 % 256) ≡ v
read16 v h = omega arith

pub read32 :
    (v : ℕ)
    → v < 4294967296
    → v % 256 + 256 * (v / 256 % 256) + 65536 * (v / 65536 % 256) + 16777216 * (v / 16777216 % 256)
      ≡ v
read32 v h = omega arith

pub ==_refl : (n : ℕ) → (n == n) ≡ true
==_refl n = (==_iff n n).1 refl

pub drop-add : (m n : ℕ) (xs : List ℕ) → drop (m + n) xs ≡ drop n (drop m xs)
drop-add zero n xs = let e : 0 + n ≡ n = omega arith in rw e
drop-add (suc m) zero [] = let e : suc m + 0 ≡ suc m = omega arith in rw e
drop-add (suc m) (suc n) [] = let e : suc m + suc n ≡ suc (m + suc n) = omega arith in rw e
drop-add (suc m) n (x ∷ xs) =
    let e : suc m + n ≡ suc (m + n) = omega arith in rw e (drop-add m n xs)

pub read_content_lem :
    (name bytes rest : List ℕ)
    → length name < 65536
    → length bytes < 4294967296
    → crc32 bytes < 4294967296
    → read_content
        (local_bytes name (crc32 bytes) (length bytes) ++ (bytes ++ rest))
        name
        (crc32 bytes)
        (length bytes)
      ≡ some bytes
unfolding read_content
read_content_lem name bytes rest hn hs hc =
    let e : 30 + length name + 0 ≡ 30 + length name = omega arith in
    rw (
      read16 (length name) hn,
      read32 (length bytes) hs,
      read32 (crc32 bytes) hc,
      ==_refl (crc32 bytes),
      ==_refl (length bytes),
      e,
      drop-add 30 (length name),
      drop-append name (bytes ++ rest),
      take-append bytes rest,
      take-append name (bytes ++ rest),
      text_eq_refl name,
      ==_refl (length bytes),
      ==_refl (crc32 bytes),
    )

pub entry_size_lem :
    (name rest : List ℕ) (crc size offset : ℕ)
    → length name < 65536
    → entry_size (central_bytes name crc size offset ++ rest)
      ≡ length (central_bytes name crc size offset)
unfolding entry_size
entry_size_lem name rest crc size offset h = rw (read16 (length name) h) (omega arith)

pub read_entry_lem :
    (archive name bytes rest : List ℕ) (offset : ℕ)
    → length name < 65536
    → length bytes < 4294967296
    → crc32 bytes < 4294967296
    → offset < 4294967296
    → drop offset archive ≡ local_bytes name (crc32 bytes) (length bytes) ++ (bytes ++ rest)
    → (tail : List ℕ)
    → read_entry archive (central_bytes name (crc32 bytes) (length bytes) offset ++ tail)
      ≡ some (record { name = name; content = bytes })
unfolding read_entry
read_entry_lem archive name bytes rest offset hn hs hc ho e tail = rw (
  read16 (length name) hn,
  read32 (length bytes) hs,
  read32 (crc32 bytes) hc,
  read32 offset ho,
  ==_refl (length bytes),
  take-append name tail,
  ==_refl (length name),
  e,
  read_content_lem name bytes rest hn hs hc,
)
