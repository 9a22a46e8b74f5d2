-- ===== src/Zip/Tests.antt =====
-- Small archives, with names of ASCII, and the checksum's standard check value.
use alt_sendme.Prelude.{
  ◌≡◌, refl, codes, some, List, [], ◌∷◌, ℕ, map, length, Text, to_slashes, arith,
}
use alt_sendme.Zip.Bytes.{crc32, crc_table, update_crc}
use alt_sendme.Zip.Archive.{Entry, create_store_only_zip}
use alt_sendme.Zip.Reader.{read_zip}
use alt_sendme.Zip.RoundTrip.{file_of, create_store_only_zip-read}

abbrev ascii : Text → List ℕ
ascii t = t

abbrev cover : Entry
cover = record { path = codes "a\\b"; bytes = 1 ∷ 2 ∷ 3 ∷ [] }

abbrev readme : Entry
readme = record { path = codes "c"; bytes = [] }

check_value : crc32 (codes "123456789") ≡ 0xcbf43926
unfolding crc32 update_crc crc_table
check_value = refl

create_store_only_zip-read_example :
    (zip : List ℕ) × (create_store_only_zip ascii (cover ∷ readme ∷ []) ≡ some zip)
    × (length zip ≡ 185)
    × (read_zip zip ≡ some (map (file_of ascii) (cover ∷ readme ∷ [])))
unfolding to_slashes
create_store_only_zip-read_example =
    create_store_only_zip-read ascii cover (readme ∷ []) (omega arith, (omega arith, tt))
      (omega arith) (omega arith)
