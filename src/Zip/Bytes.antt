-- ===== src/Zip/Bytes.antt =====
-- frontend/src/lib/web-zip.ts: the byte buffers, their little-endian writes, and the checksum.
use Prim.Native.Nat.{bit_xor}
use alt_sendme.Prelude.{
  ◌>>=◌, ℕ, zero, suc, ◌+◌, ◌/◌, ◌%◌, ◌^◌, Option, none, some, List, [], ◌∷◌, get_or, length,
  replicate, ◌==◌, if◌then◌else◌,
}

abbrev push : ℕ → Option (List ℕ) → Option (List ℕ)
push x none = none
push x (some xs) = some (x ∷ xs)

-- The buffer overwritten by `bytes` from its start; `none` where they do not fit.
abbrev pub overwrite : List ℕ → List ℕ → Option (List ℕ)
overwrite buffer [] = some buffer
overwrite [] (b ∷ bytes) = none
overwrite (x ∷ buffer) (b ∷ bytes) = push b (overwrite buffer bytes)

-- `buffer.set(bytes, offset)`; `none` is the RangeError that it throws out of bounds.
abbrev pub set_bytes : List ℕ → ℕ → List ℕ → Option (List ℕ)
set_bytes buffer zero bytes = overwrite buffer bytes
set_bytes [] (suc offset) bytes = none
set_bytes (x ∷ buffer) (suc offset) bytes = push x (set_bytes buffer offset bytes)

-- `view.setUint16(offset, value, true)`: the value wraps around.
abbrev pub uint16 : ℕ → List ℕ
uint16 value = value % 256 ∷ value / 256 % 256 ∷ []

abbrev pub uint32 : ℕ → List ℕ
uint32 value = value % 256 ∷ value / 256 % 256 ∷ value / 65536 % 256 ∷ value / 16777216 % 256 ∷ []

abbrev pub write_uint16 : List ℕ → ℕ → ℕ → Option (List ℕ)
write_uint16 view offset value = set_bytes view offset (uint16 value)

abbrev pub write_uint32 : List ℕ → ℕ → ℕ → Option (List ℕ)
write_uint32 view offset value = set_bytes view offset (uint32 value)

-- One bit of an entry of the table.
abbrev shift_bit : ℕ → ℕ
shift_bit value = if value % 2 == 1 then bit_xor 0xedb88320 (value / 2) else value / 2

abbrev shift_bits : ℕ → ℕ → ℕ
shift_bits zero value = value
shift_bits (suc bits) value = shift_bits bits (shift_bit value)

abbrev table_from : ℕ → ℕ → List ℕ
table_from zero index = []
table_from (suc n) index = shift_bits 8 index % 2 ^ 32 ∷ table_from n (suc index)

-- `CRC_TABLE`
unfoldable pub crc_table : List ℕ
crc_table = table_from 256 0

-- The loop of `crc32`; `>>> 0` and `& 0xff` are remainders.
unfoldable pub update_crc : ℕ → List ℕ → ℕ
update_crc crc [] = crc
update_crc crc (byte ∷ bytes) =
    update_crc (bit_xor (get_or crc_table (bit_xor crc byte % 256) 0) (crc / 256) % 2 ^ 32) bytes

unfoldable pub crc32 : List ℕ → ℕ
crc32 bytes = bit_xor (update_crc 0xffffffff bytes) 0xffffffff % 2 ^ 32

-- `concatChunks`: the chunks are set one after another in a buffer of their total size.
abbrev pub total : List (List ℕ) → ℕ
total [] = 0
total (chunk ∷ chunks) = length chunk + total chunks

abbrev pub set_chunks : List ℕ → ℕ → List (List ℕ) → Option (List ℕ)
set_chunks output offset [] = some output
set_chunks output offset (chunk ∷ chunks) = do
  output ← set_bytes output offset chunk
  set_chunks output (offset + length chunk) chunks

unfoldable pub concat_chunks : List (List ℕ) → Option (List ℕ)
concat_chunks chunks = set_chunks (replicate (total chunks) 0) 0 chunks
