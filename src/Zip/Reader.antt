-- ===== src/Zip/Reader.antt =====
-- A reader of ZIP archives by the format's specification (stored entries, no comment), against which
-- frontend/src/lib/web-zip.ts is judged. It reads the end record, then the central directory, and
-- each entry's content where its local header says.
use alt_sendme.Prelude.{
  ◌>>=◌, ℕ, zero, suc, ◌+◌, ◌*◌, ◌-◌, ◌&&◌, Option, none, some, List, [], ◌∷◌, get_or, length, take,
  drop, ◌==◌, if◌then◌else◌, text_eq,
}
use alt_sendme.Zip.Bytes.{crc32}

abbrev pub read_uint16 : List ℕ → ℕ → ℕ
read_uint16 h i = get_or h i 0 + 256 * get_or h (suc i) 0

abbrev pub read_uint32 : List ℕ → ℕ → ℕ
read_uint32 h i =
    get_or h i 0
    + 256 * get_or h (suc i) 0
    + 65536 * get_or h (suc (suc i)) 0
    + 16777216 * get_or h (suc (suc (suc i))) 0

-- A file of an archive: its name and its content, in bytes.
pub record File : Type 0 where
  pub name : List ℕ
  pub content : List ℕ

-- The content that follows the local header at `h`, which must agree with its central header.
unfoldable pub read_content : List ℕ → List ℕ → ℕ → ℕ → Option (List ℕ)
unfolding text_eq
read_content h name crc size =
    let bytes = take size (drop (30 + read_uint16 h 26 + read_uint16 h 28) h) in
    if (read_uint32 h 0 == 0x04034b50)
      && (read_uint16 h 8 == 0)
      && (read_uint32 h 14 == crc)
      && (read_uint32 h 18 == size)
      && (read_uint32 h 22 == size)
      && text_eq (take (read_uint16 h 26) (drop 30 h)) name
      && (length bytes == size)
      && (crc32 bytes == crc)
    then some bytes
    else none

-- The entry of the central directory at `h`.
unfoldable pub read_entry : List ℕ → List ℕ → Option File
unfolding read_content
read_entry archive h =
    let name = take (read_uint16 h 28) (drop 46 h) in
    if (read_uint32 h 0 == 0x02014b50)
      && (read_uint16 h 10 == 0)
      && (read_uint32 h 20 == read_uint32 h 24)
      && (length name == read_uint16 h 28)
    then (do
      content ←
          read_content (drop (read_uint32 h 42) archive) name (read_uint32 h 16) (read_uint32 h 24)
      some (record { name = name; content = content }))
    else none

-- The bytes that an entry of the central directory takes.
unfoldable pub entry_size : List ℕ → ℕ
entry_size h = 46 + read_uint16 h 28 + read_uint16 h 30 + read_uint16 h 32

unfoldable pub read_entries : List ℕ → ℕ → List ℕ → Option (List File)
unfolding read_entry entry_size
read_entries archive zero h = some []
read_entries archive (suc n) h = do
  file ← read_entry archive h
  files ← read_entries archive n (drop (entry_size h) h)
  some (file ∷ files)

-- The files of an archive that ends with an end record without a comment.
unfoldable pub read_zip : List ℕ → Option (List File)
unfolding read_entries
read_zip archive =
    let h = drop (length archive - 22) archive in
    if (read_uint32 h 0 == 0x06054b50)
      && (read_uint16 h 8 == read_uint16 h 10)
      && (read_uint16 h 20 == 0)
      && (read_uint32 h 16 + read_uint32 h 12 + 22 == length archive)
    then read_entries archive (read_uint16 h 10) (drop (read_uint32 h 16) archive)
    else none
