-- ===== src/Receiver/Paths.antt =====
-- frontend/src/hooks/useReceiver.ts: the names of received files, as paths.
use alt_sendme.Prelude.{
  ℕ, Bool, false, ◌&&◌, ◌||◌, Text, Option, none, some, List, [], ◌∷◌, ◌++◌, leb, ◌==◌, length, add,
  last_or, is_empty, split, non_empty, to_slashes, if◌then◌else◌,
}

abbrev is_letter : ℕ → Bool
is_letter c = (leb b'A' c && leb c b'Z') || (leb b'a' c && leb c b'z')

-- `/^[A-Za-z]:[\\/]/.test(path)`
unfoldable pub has_drive : Text → Bool
has_drive (a ∷ b ∷ c ∷ s) = is_letter a && (b == b':') && ((c == 92) || (c == b'/'))
has_drive _ = false

-- `path.startsWith('/')`
abbrev pub starts_with_slash : Text → Bool
starts_with_slash [] = false
starts_with_slash (c ∷ s) = c == b'/'

unfoldable pub is_absolute_path : Text → Bool
unfolding has_drive
is_absolute_path path = starts_with_slash path || has_drive path

-- The entry of a list of parts that `countTopLevelItems` adds, unless it is empty.
abbrev add_name : Text → List Text → List Text
add_name [] seen = seen
add_name (c ∷ s) seen = add (c ∷ s) seen

abbrev pub first_part : List Text → Text
first_part [] = []
first_part (p ∷ ps) = p

unfoldable pub top_level_item : Text → Text
unfolding split non_empty to_slashes is_absolute_path
top_level_item name =
    let normalized = to_slashes name in
    if is_absolute_path normalized
    then last_or (non_empty (split b'/' normalized)) []
    else first_part (split b'/' normalized)

unfoldable pub top_level_items : List Text → List Text → List Text
unfolding add top_level_item
top_level_items seen [] = seen
top_level_items seen (name ∷ names) = top_level_items (add_name (top_level_item name) seen) names

-- `countTopLevelItems`
unfoldable pub count_top_level_items : List Text → ℕ
unfolding top_level_items
count_top_level_items names = length (top_level_items [] names)

-- `parts.join('/')`
unfoldable pub join_slash : List Text → Text
join_slash [] = []
join_slash (p ∷ []) = p
join_slash (p ∷ q ∷ ps) = p ++ b'/' ∷ join_slash (q ∷ ps)

-- `parts.pop()`, for what is left
unfoldable pub without_last : List Text → List Text
without_last [] = []
without_last (p ∷ []) = []
without_last (p ∷ q ∷ ps) = p ∷ without_last (q ∷ ps)

-- `a || b` on texts
abbrev pub or_else_text : Text → Text → Text
or_else_text [] b = b
or_else_text (c ∷ s) b = c ∷ s

-- `joinPath` of the platform may fail; the path that is used then.
abbrev joined : Option Text → Text → Text
joined none base = base
joined (some path) base = path

module _ (join_path : Text → Text → Option Text) where
  -- The path for a single name.
  abbrev reveal_one : Text → Text → Text
  reveal_one base name = if is_absolute_path name then name else joined (join_path base name) base

  -- The path for several names, by the first of them.
  abbrev reveal_many : Text → Text → Text
  reveal_many base name =
      let parts = split b'/' (to_slashes name) in
      let top = first_part parts in
      if is_absolute_path name
      then (if leb 2 (length parts)
          then or_else_text (join_slash (without_last parts)) name
          else name)
      else if is_empty top
      then base
      else joined (join_path base top) base

  -- `resolveRevealPath`
  unfoldable pub resolve_reveal_path : Text → List Text → Option Text
  unfolding is_absolute_path split to_slashes join_slash without_last
  resolve_reveal_path [] names = none
  resolve_reveal_path (c ∷ s) [] = some (c ∷ s)
  resolve_reveal_path (c ∷ s) (name ∷ []) = some (reveal_one (c ∷ s) name)
  resolve_reveal_path (c ∷ s) (name ∷ next ∷ names) = some (reveal_many (c ∷ s) name)
