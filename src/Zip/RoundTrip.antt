-- ===== src/Zip/RoundTrip.antt =====
-- frontend/src/lib/web-zip.ts: the reader of the format reads back what `createStoreOnlyZip` returns.
use alt_sendme.Prelude.{
  ℕ, suc, ◌+◌, ◌*◌, ◌-◌, ◌<◌, ◌≡◌, refl, sym, ◌∙◌, ap, Text, some, List, [], ◌∷◌, ◌++◌, map, length,
  drop, arith, append_assoc, length-append, drop-append, All,
}
use alt_sendme.Zip.Bytes.{crc32}
use alt_sendme.Zip.Archive.{Entry, name_of, create_store_only_zip}
use alt_sendme.Zip.Layout.{end_bytes}
use alt_sendme.Zip.Reader.{File, read_entry, entry_size, read_entries, read_zip}
use alt_sendme.Zip.Fields.{read16, read32, ==_refl, entry_size_lem, read_entry_lem}
use alt_sendme.Zip.Written.{
  local_of, central_of, entry_length, locals, centrals, archive_of, create_store_only_zip_lem,
}

crc32-lt : (bytes : List ℕ) → crc32 bytes < 4294967296
unfolding crc32
crc32-lt bytes = omega arith

module _ (encode : Text → List ℕ) where
  abbrev pub file_of : Entry → File
  file_of e = record { name = name_of encode e; content = e.bytes }

  abbrev pub HasShortName : Entry → Type 0
  HasShortName e = length (name_of encode e) < 65536

  locals-at :
      (archive before tail : List ℕ) (e : Entry) (es : List Entry)
      → archive ≡ before ++ (locals encode (e ∷ es) ++ tail)
      → drop (length before) archive ≡ local_of encode e ++ (e.bytes ++ (locals encode es ++ tail))
  locals-at archive before tail e es h = rw (
    h,
    drop-append before (locals encode (e ∷ es) ++ tail),
    append_assoc (name_of encode e) (e.bytes ++ locals encode es) tail,
    append_assoc e.bytes (locals encode es) tail,
  )

  next-at :
      (archive before tail : List ℕ) (e : Entry) (es : List Entry)
      → archive ≡ before ++ (locals encode (e ∷ es) ++ tail)
      → archive ≡ (before ++ (local_of encode e ++ e.bytes)) ++ (locals encode es ++ tail)
  next-at archive before tail e es h = h ∙ simp append_assoc

  locals-length :
      (e : Entry) (es : List Entry)
      → length (locals encode (e ∷ es)) ≡ entry_length encode e + length (locals encode es)
  locals-length e es = omega (
    arith,
    length-append (local_of encode e) (e.bytes ++ locals encode es),
    length-append e.bytes (locals encode es),
  )

  entry-append :
      (before : List ℕ) (e : Entry)
      → length (before ++ (local_of encode e ++ e.bytes)) ≡ length before + entry_length encode e
  entry-append before e = omega (
    arith,
    length-append before (local_of encode e ++ e.bytes),
    length-append (local_of encode e) e.bytes,
  )

  read_entries-cons :
      (archive h : List ℕ) (n : ℕ) (file : File) (files : List File)
      → read_entry archive h ≡ some file
      → read_entries archive n (drop (entry_size h) h) ≡ some files
      → read_entries archive (suc n) h ≡ some (file ∷ files)
  unfolding read_entries
  read_entries-cons archive h n file files e f = rw (e, f)

  skip-entry :
      (e : Entry) (offset : ℕ) (rest : List ℕ)
      → HasShortName e
      → let h = central_of encode e offset ++ rest in drop (entry_size h) h ≡ rest
  skip-entry e offset rest short =
      ap (λ k. drop k (central_of encode e offset ++ rest))
        (entry_size_lem (name_of encode e) rest (crc32 e.bytes) (length e.bytes) offset short)
      ∙ drop-append (central_of encode e offset) rest

  read_entries_lem :
      (archive before tail rest : List ℕ) (es : List Entry)
      → archive ≡ before ++ (locals encode es ++ tail)
      → length before + length (locals encode es) < 4294967296
      → All HasShortName es
      → read_entries archive (length es) (centrals encode (length before) es ++ rest)
        ≡ some (map file_of es)
  unfolding read_entries
  read_entries_lem archive before tail rest [] h b short = refl
  read_entries_lem archive before tail rest (e ∷ es) h b short =
      let offset = length before in
      let central = central_of encode e offset in
      let others = centrals encode (offset + entry_length encode e) es ++ rest in
      let size = locals-length e es in
      let small : length e.bytes < 4294967296 = omega (arith, size, b) in
      let near : offset < 4294967296 = omega (arith, size, b) in
      let this : read_entry archive (central ++ others) ≡ some (file_of e) =
        read_entry_lem archive (name_of encode e) e.bytes (locals encode es ++ tail) offset short.0
          small (crc32-lt e.bytes) near (locals-at archive before tail e es h) others in
      let after = before ++ (local_of encode e ++ e.bytes) in
      let next : read_entries archive (length es) others ≡ some (map file_of es) =
        ap (λ k. read_entries archive (length es) (centrals encode k es ++ rest))
          (sym (entry-append before e))
        ∙ read_entries_lem archive after tail rest es (next-at archive before tail e es h)
            (omega (arith, size, b, entry-append before e)) short.1 in
      ap (read_entries archive (suc (length es)))
        (append_assoc central (centrals encode (offset + entry_length encode e) es) rest)
      ∙ read_entries-cons archive (central ++ others) (length es) (file_of e) (map file_of es) this
          (ap (read_entries archive (length es)) (skip-entry e offset others short.0) ∙ next)

read_zip-parts :
    (l c : List ℕ) (n : ℕ) (files : List File)
    → n < 65536
    → length l + length c < 4294967296
    → let archive = l ++ (c ++ end_bytes n (length c) (length l)) in
      read_entries archive n (c ++ end_bytes n (length c) (length l)) ≡ some files
      → read_zip archive ≡ some files
unfolding read_zip
read_zip-parts l c n files hn hs e =
    let tail = end_bytes n (length c) (length l) in
    let size : length (l ++ (c ++ tail)) ≡ length l + length c + 22 =
      omega (arith, length-append l (c ++ tail), length-append c tail) in
    let start : length (l ++ (c ++ tail)) - 22 ≡ length (l ++ c) =
      omega (arith, size, length-append l c) in
    let found : drop (length (l ++ c)) (l ++ (c ++ tail)) ≡ tail =
      ap (drop (length (l ++ c))) (sym (append_assoc l c tail)) ∙ drop-append (l ++ c) tail in
    rw
      (
        start,
        found,
        read16 n hn,
        read32 (length c) (omega (arith, hs)),
        read32 (length l) (omega (arith, hs)),
        ==_refl n,
        size,
        ==_refl (length l + length c + 22),
        drop-append l (c ++ tail),
      )
      e

module _ (encode : Text → List ℕ) where
  -- The size of an archive.
  abbrev pub archive_size : List Entry → ℕ
  archive_size [] = 22
  archive_size (e ∷ es) = 76 + 2 * length (name_of encode e) + length e.bytes + archive_size es

  parts-length :
      (es : List Entry) (offset : ℕ)
      → length (locals encode es) + length (centrals encode offset es) + 22 ≡ archive_size es
  parts-length [] offset = omega arith
  parts-length (e ∷ es) offset = omega (
    arith,
    length-append (name_of encode e) (e.bytes ++ locals encode es),
    length-append e.bytes (locals encode es),
    length-append (name_of encode e) (centrals encode (offset + entry_length encode e) es),
    parts-length es (offset + entry_length encode e),
  )

  -- A round trip: of at least one entry and at most 65535, each with a name of at most 65535 bytes,
  -- and less than 4 GiB together with the headers, the archive is created, has exactly the size of
  -- its entries and headers, and a reader by the format's specification, which checks the
  -- signatures, the sizes and the checksums, finds the entries' names and contents in their order.
  pub create_store_only_zip-read :
      (e : Entry) (es : List Entry)
      → All (HasShortName encode) (e ∷ es)
      → length (e ∷ es) < 65536
      → archive_size (e ∷ es) < 4294967296
      → (zip : List ℕ) × (create_store_only_zip encode (e ∷ es) ≡ some zip)
        × (length zip ≡ archive_size (e ∷ es))
        × (read_zip zip ≡ some (map (file_of encode) (e ∷ es)))
  create_store_only_zip-read e es short few small =
      let l = locals encode (e ∷ es) in
      let c = centrals encode 0 (e ∷ es) in
      let tail = end_bytes (length (e ∷ es)) (length c) (length l) in
      let size = parts-length (e ∷ es) 0 in
      (
        archive_of encode (e ∷ es),
        create_store_only_zip_lem encode e es,
        omega (arith, size, length-append l (c ++ tail), length-append c tail),
        read_zip-parts l c (length (e ∷ es)) (map (file_of encode) (e ∷ es)) few
            (omega (arith, size, small))
            (read_entries_lem encode (archive_of encode (e ∷ es)) [] (c ++ tail) tail (e ∷ es) refl
              (omega (arith, size, small)) short),
      )
