-- ===== src/Web/Metadata.antt =====
-- frontend/src/lib/web-send-metadata.ts: the names of the items of a preview.
use alt_sendme.Prelude.{
  ℕ, suc, ◌≡◌, false, Text, List, [], ◌∷◌, get, put, text_eq, or_else, ◌==◌, if◌then◌else◌, split,
  non_empty, last_or, length, ap, arith, Bool-cases, inl, inr, text_eq_iff, text_eq_refl,
}
use alt_sendme.Save.Names.{last_index_of, insert_number}
use alt_sendme.Save.Resolve.{insert_number-longer}

-- `segments[segments.length - 1] ?? path`
unfoldable pub basename : Text → Text
unfolding split non_empty
basename path = last_or (non_empty (split b'/' path)) path

abbrev pub with_number : Text → ℕ → Text
with_number name count = insert_number name count (last_index_of b'.' name)

-- The name that an item gets, and the map of the names seen after it. A count of at most five digits
-- is printed.
unfoldable pub dedup_name : Text → List (Text × ℕ) → Text × List (Text × ℕ)
unfolding get put
dedup_name name seen =
    let count = or_else (get name seen) 0 in
    (if count == 0 then name else with_number name count, put name (suc count) seen)

-- The names of several items, which share one map.
abbrev pub dedup_names : List (Text × ℕ) → List Text → List Text
dedup_names seen [] = []
dedup_names seen (name ∷ names) =
    (dedup_name name seen).0 ∷ dedup_names (dedup_name name seen).1 names

number-differs : (name : Text) (count : ℕ) → text_eq name (with_number name count) ≡ false
number-differs name count = elim (Bool-cases (text_eq name (with_number name count))) [
  | inl same ↦
      let e : length name ≡ length (with_number name count) =
        ap length ((text_eq_iff name (with_number name count)).0 same) in
      absurd (omega (arith, e, insert_number-longer name count (last_index_of b'.' name)))
  | inr other ↦ other
]

-- Names that are made distinct can collide: where a name stands twice and then stands with the
-- number 1, the second and the third item get the same name.
pub dedup_names-collide :
    (name : Text)
    → dedup_names [] (name ∷ name ∷ with_number name 1 ∷ [])
      ≡ name ∷ with_number name 1 ∷ with_number name 1 ∷ []
unfolding dedup_name get put
dedup_names-collide name = rw (text_eq_refl name, number-differs name 1)
