-- ===== src/Save/Names.antt =====
-- frontend/src/lib/web-save-location.ts: the names under which received files are saved.
use alt_sendme.Prelude.{
  decimal_on, ℕ, zero, suc, Bool, ◌||◌, Text, codes, Option, none, some, List, [], ◌∷◌, ◌++◌, ◌==◌,
  if◌then◌else◌, take, drop, split, last_segment, to_slashes, text_eq, add, head?, any,
}

-- `WebWriteConflict`
pub record WriteConflict : Type 0 where
  pub original : Text
  pub resolved : Text

unfoldable pub basename : Text → Text
unfolding last_segment to_slashes
basename path = last_segment (to_slashes path)

-- A number below 100000, as a template prints it.
abbrev pub decimal : ℕ → Text
decimal n = decimal_on 5 n []

-- `text.lastIndexOf(c)`; `none` is -1
abbrev pub last_index_of : ℕ → Text → Option ℕ
last_index_of c [] = none
last_index_of c (d ∷ s) = elim (last_index_of c s) [
  | some i ↦ some (suc i)
  | none ↦ if d == c then some 0 else none
]

-- ` (index)`
abbrev pub numbered : ℕ → Text
numbered index = codes " (" ++ decimal index ++ codes ")"

abbrev pub insert_number : Text → ℕ → Option ℕ → Text
insert_number name index none = name ++ numbered index
insert_number name index (some zero) = name ++ numbered index
insert_number name index (some (suc dot)) =
    take (suc dot) name ++ numbered index ++ drop (suc dot) name

unfoldable pub resolve_conflict_name : Text → ℕ → Text
resolve_conflict_name name index = insert_number name index (last_index_of b'.' name)

-- The result of `resolveWritableFileName`.
pub record Resolved : Type 0 where
  pub file_name : Text
  pub conflict : Option WriteConflict

-- The loop from `index` on for `rounds` rounds; `exists` asks for a file in the folder.
unfoldable pub resolve_from : (Text → Bool) → Text → Text → ℕ → ℕ → Option Resolved
unfolding resolve_conflict_name text_eq
resolve_from exists name candidate index zero = none
resolve_from exists name candidate index (suc rounds) =
    let rest = resolve_from exists name (resolve_conflict_name name index) (suc index) rounds in
    if exists candidate
    then rest
    else if text_eq candidate name
    then some (record { file_name = candidate; conflict = none })
    else some (record {
      file_name = candidate;
      conflict = some (record { original = name; resolved = candidate });
    })

-- `none` is the error of too many conflicts.
unfoldable pub resolve_writable_file_name : (Text → Bool) → Text → Option Resolved
unfolding resolve_from
resolve_writable_file_name exists name = resolve_from exists name name 1 9999

-- The roots of the paths, without empty ones.
abbrev add_root : Option Text → List Text → List Text
add_root none roots = roots
add_root (some []) roots = roots
add_root (some (c ∷ root)) roots = add (c ∷ root) roots

abbrev roots_of : List Text → List Text → List Text
roots_of roots [] = roots
roots_of roots (path ∷ paths) =
    roots_of (add_root (head? (split b'/' (to_slashes path))) roots) paths

abbrev zip_name_of : List Text → Text
zip_name_of (root ∷ []) = root ++ codes ".zip"
zip_name_of _ = codes "download.zip"

unfoldable pub derive_zip_download_name : List Text → Text
unfolding split to_slashes add
derive_zip_download_name paths = zip_name_of (roots_of [] paths)

-- `name.includes('/') || name.includes('\\')`
unfoldable pub has_separator : Text → Bool
has_separator name = any (λ c. c == b'/') name || any (λ c. c == 92) name
