-- ===== src/Zip/Headers.antt =====
-- frontend/src/lib/web-zip.ts: the headers of the archive, each written field by field.
use alt_sendme.Prelude.{◌>>=◌, ℕ, ◌+◌, Option, List, length, replicate}
use alt_sendme.Zip.Bytes.{set_bytes, write_uint16, write_uint32}

-- `buildLocalFileHeader`
unfoldable pub local_header : List ℕ → ℕ → ℕ → Option (List ℕ)
local_header name crc size = do
  h ← write_uint32 (replicate (30 + length name) 0) 0 0x04034b50
  h ← write_uint16 h 4 20
  h ← write_uint16 h 6 0
  h ← write_uint16 h 8 0
  h ← write_uint16 h 10 0
  h ← write_uint16 h 12 0
  h ← write_uint32 h 14 crc
  h ← write_uint32 h 18 size
  h ← write_uint32 h 22 size
  h ← write_uint16 h 26 (length name)
  h ← write_uint16 h 28 0
  set_bytes h 30 name

-- `buildCentralDirectoryHeader`
unfoldable pub central_header : List ℕ → ℕ → ℕ → ℕ → Option (List ℕ)
central_header name crc size offset = do
  h ← write_uint32 (replicate (46 + length name) 0) 0 0x02014b50
  h ← write_uint16 h 4 20
  h ← write_uint16 h 6 20
  h ← write_uint16 h 8 0
  h ← write_uint16 h 10 0
  h ← write_uint16 h 12 0
  h ← write_uint16 h 14 0
  h ← write_uint32 h 16 crc
  h ← write_uint32 h 20 size
  h ← write_uint32 h 24 size
  h ← write_uint16 h 28 (length name)
  h ← write_uint16 h 30 0
  h ← write_uint16 h 32 0
  h ← write_uint16 h 34 0
  h ← write_uint16 h 36 0
  h ← write_uint32 h 38 0
  h ← write_uint32 h 42 offset
  set_bytes h 46 name

-- `buildEndOfCentralDirectory`
unfoldable pub end_record : ℕ → ℕ → ℕ → Option (List ℕ)
end_record count size offset = do
  h ← write_uint32 (replicate 22 0) 0 0x06054b50
  h ← write_uint16 h 4 0
  h ← write_uint16 h 6 0
  h ← write_uint16 h 8 count
  h ← write_uint16 h 10 count
  h ← write_uint32 h 12 size
  h ← write_uint32 h 16 offset
  write_uint16 h 20 0
