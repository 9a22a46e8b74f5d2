-- ===== src/Zip/Archive.antt =====
-- frontend/src/lib/web-zip.ts: `createStoreOnlyZip`. The text encoder is a parameter; `none` is a
-- thrown error.
use alt_sendme.Prelude.{
  ◌>>=◌, ℕ, ◌+◌, Text, to_slashes, Option, none, some, List, [], ◌∷◌, ◌++◌, length,
}
use alt_sendme.Zip.Bytes.{crc32, concat_chunks}
use alt_sendme.Zip.Headers.{local_header, central_header, end_record}

-- `ZipEntry`
pub record Entry : Type 0 where
  pub path : Text
  pub bytes : List ℕ

-- The variables of the loop over the entries.
pub record Chunks : Type 0 where
  pub local : List (List ℕ)
  pub central : List (List ℕ)
  pub offset : ℕ

module _ (encode : Text → List ℕ) where
  abbrev pub name_of : Entry → List ℕ
  name_of entry = encode (to_slashes entry.path)

  -- One round of the loop.
  unfoldable pub add_entry : Chunks → Entry → Option Chunks
  add_entry c entry = do
    header ← local_header (name_of entry) (crc32 entry.bytes) (length entry.bytes)
    record_header ← central_header (name_of entry) (crc32 entry.bytes) (length entry.bytes) c.offset
    some (record {
      local = c.local ++ header ∷ entry.bytes ∷ [];
      central = c.central ++ record_header ∷ [];
      offset = c.offset + (length header + length entry.bytes);
    })

  abbrev pub add_entries : Chunks → List Entry → Option Chunks
  add_entries c [] = some c
  add_entries c (entry ∷ entries) = do c ← add_entry c entry; add_entries c entries

  -- The archive of at least one entry.
  unfoldable pub create_store_only_zip : List Entry → Option (List ℕ)
  create_store_only_zip [] = none
  create_store_only_zip (entry ∷ entries) = do
    c ← add_entries (record { local = []; central = []; offset = 0 }) (entry ∷ entries)
    central ← concat_chunks c.central
    end ← end_record (length (entry ∷ entries)) (length central) c.offset
    concat_chunks (c.local ++ central ∷ end ∷ [])
