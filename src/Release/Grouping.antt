-- ===== src/Release/Grouping.antt =====
-- scripts/generate-release-notes.js: a `Map` from texts to lists, to which values are pushed, and what
-- it is when all are pushed: a table of the distinct keys, in the order in which they first came.
use mathlib.Core.Path.{◌∙◌}
use alt_sendme.Prelude.{
  Bool, true, false, ◌≡◌, refl, sym, ap, Text, text_eq, text_eq_iff, text_eq_refl, none, some, List,
  [], ◌∷◌, ◌++◌, append_assoc, append-nil, get, put, contains, add, or_else, if◌then◌else◌, arith,
  Bool-cases, ◌||◌, any, ◌<◌, inl, inr, length,
}

module _ {A : Type 0} where
  -- `if (!groups.has(key)) groups.set(key, [])` and `groups.get(key).push(x)`
  unfoldable pub push_to : Text → A → List (Text × List A) → List (Text × List A)
  unfolding get put
  push_to key x groups = put key (or_else (get key groups) [] ++ x ∷ []) groups

  unfoldable pub push_all : List (Text × List A) → List (Text × A) → List (Text × List A)
  unfolding push_to
  push_all groups [] = groups
  push_all groups ((key, x) ∷ pairs) = push_all (push_to key x groups) pairs

  -- The values of a key, in their order.
  unfoldable pub values_of : Text → List (Text × A) → List A
  unfolding text_eq
  values_of key [] = []
  values_of key ((j, x) ∷ pairs) =
      let rest = values_of key pairs in if text_eq j key then x ∷ rest else rest

  -- The keys once each, in the order in which they first came, behind `seen`.
  unfoldable pub keys_from : List Text → List (Text × A) → List Text
  unfolding add
  keys_from seen [] = seen
  keys_from seen ((key, x) ∷ pairs) = keys_from (add key seen) pairs

  unfoldable pub table : (Text → List A) → List Text → List (Text × List A)
  table f [] = []
  table f (key ∷ keys) = (key, f key) ∷ table f keys

unfoldable pub Distinct : List Text → Type 0
unfolding contains
Distinct [] = Unit
Distinct (key ∷ keys) = (contains key keys ≡ false) × Distinct keys

contains-append :
    (key : Text) (xs ys : List Text)
    → contains key (xs ++ ys) ≡ (if contains key xs then true else contains key ys)
unfolding contains
contains-append key [] ys = refl
contains-append key (x ∷ xs) ys = ground (arith, contains-append key xs ys)

append-Distinct :
    (key : Text) (keys : List Text)
    → contains key keys ≡ false
    → Distinct keys
    → Distinct (keys ++ key ∷ [])
unfolding Distinct contains
append-Distinct key [] h d = (refl, tt)
append-Distinct key (j ∷ keys) h d = ground (
  arith,
  append-Distinct key keys,
  contains-append j keys (key ∷ []),
  text_eq_iff key j,
  text_eq_iff j key,
)

pub add-Distinct : (key : Text) (keys : List Text) → Distinct keys → Distinct (add key keys)
unfolding add
add-Distinct key keys d = elim (Bool-cases (contains key keys)) [
  | inl e ↦ rw (e) d
  | inr e ↦ rw (e) (append-Distinct key keys e d)
]

pub contains-add :
    (j key : Text) (keys : List Text)
    → contains j (add key keys) ≡ (if text_eq key j then true else contains j keys)
unfolding add contains
contains-add j key keys = ground (arith, contains-append j keys (key ∷ []), text_eq_iff key j)

add-cons :
    (key j : Text) (keys : List Text)
    → text_eq j key ≡ false
    → add key (j ∷ keys) ≡ j ∷ add key keys
unfolding add contains
add-cons key j keys h = ground (arith, h)

module _ {A : Type 0} where
  -- `f` with another value at `key`.
  abbrev update : (Text → List A) → Text → List A → Text → List A
  update f key v j = if text_eq key j then v else f j

  pub get-table :
      (f : Text → List A) (key : Text) (keys : List Text)
      → get key (table f keys) ≡ (if contains key keys then some (f key) else none)
  unfolding get table contains
  get-table f key [] = refl
  get-table f key (j ∷ keys) = ground (arith, text_eq_iff j key, get-table f key keys)

  table_outside :
      (f : Text → List A) (key : Text) (v : List A) (keys : List Text)
      → contains key keys ≡ false
      → table (update f key v) keys ≡ table f keys
  unfolding table contains
  table_outside f key v [] h = refl
  table_outside f key v (j ∷ keys) h =
      ground (arith, text_eq_iff j key, text_eq_iff key j, table_outside f key v keys)

  pub table_ext :
      (f g : Text → List A) (keys : List Text)
      → ((key : Text) → f key ≡ g key)
      → table f keys ≡ table g keys
  unfolding table
  table_ext f g [] e = refl
  table_ext f g (j ∷ keys) e = ground (arith, e j, table_ext f g keys e)

  put-table :
      (f : Text → List A) (key : Text) (v : List A) (keys : List Text)
      → Distinct keys
      → put key v (table f keys) ≡ table (update f key v) (add key keys)
  unfolding put table Distinct add contains
  put-table f key v [] d = rw (text_eq_refl key)
  put-table f key v (j ∷ keys) d = elim (Bool-cases (text_eq j key)) [
    | inl e ↦
        let same : j ≡ key = (text_eq_iff j key).0 e in
        ground (arith, same, text_eq_refl key, table_outside f key v keys)
    | inr e ↦ ground (
      arith,
      text_eq_iff key j,
      text_eq_iff j key,
      put-table f key v keys d.1,
      add-cons key j keys e,
    )
  ]

  -- A table whose values stand at its keys only.
  abbrev pub Outside : (Text → List A) → List Text → Type 0
  Outside f keys = (j : Text) → contains j keys ≡ false → f j ≡ []

  push_to-table :
      (f : Text → List A) (key : Text) (x : A) (keys : List Text)
      → Distinct keys
      → Outside f keys
      → push_to key x (table f keys) ≡ table (update f key (f key ++ x ∷ [])) (add key keys)
  unfolding push_to
  push_to-table f key x keys d o =
      let old : or_else (get key (table f keys)) [] ≡ f key =
        ground (arith, get-table f key keys, o key) in
      rw (old) (put-table f key (f key ++ x ∷ []) keys d)

  update-Outside :
      (f : Text → List A) (key : Text) (v : List A) (keys : List Text)
      → Outside f keys
      → Outside (update f key v) (add key keys)
  update-Outside f key v keys o j h = ground (arith, contains-add j key keys, o j)

  values_of-update :
      (f : Text → List A) (key : Text) (x : A) (pairs : List (Text × A)) (j : Text)
      → update f key (f key ++ x ∷ []) j ++ values_of j pairs
        ≡ f j ++ values_of j ((key, x) ∷ pairs)
  unfolding values_of
  values_of-update f key x pairs j = elim (Bool-cases (text_eq key j)) [
    | inl e ↦
        let same : key ≡ j = (text_eq_iff key j).0 e in
        ground (arith, e, same, append_assoc (f key) (x ∷ []) (values_of j pairs))
    | inr e ↦ ground (arith, e)
  ]

  pub push_all-table :
      (f : Text → List A) (keys : List Text) (pairs : List (Text × A))
      → Distinct keys
      → Outside f keys
      → push_all (table f keys) pairs ≡ table (λ j. f j ++ values_of j pairs) (keys_from keys pairs)
  unfolding push_all keys_from values_of
  push_all-table f keys [] d o =
      table_ext f (λ j. f j ++ values_of j []) keys (λ j. sym (append-nil (f j)))
  push_all-table f keys ((key, x) ∷ pairs) d o =
      let g : Text → List A = update f key (f key ++ x ∷ []) in
      ap (λ m. push_all m pairs) (push_to-table f key x keys d o)
      ∙ push_all-table g (add key keys) pairs (add-Distinct key keys d)
          (update-Outside f key (f key ++ x ∷ []) keys o)
      ∙ table_ext (λ j. g j ++ values_of j pairs) (λ j. f j ++ values_of j ((key, x) ∷ pairs))
          (keys_from (add key keys) pairs) (values_of-update f key x pairs)

  pub keys_from-Distinct :
      (keys : List Text) (pairs : List (Text × A)) → Distinct keys → Distinct (keys_from keys pairs)
  unfolding keys_from
  keys_from-Distinct keys [] d = d
  keys_from-Distinct keys ((key, x) ∷ pairs) d =
      keys_from-Distinct (add key keys) pairs (add-Distinct key keys d)

  -- A key is in the table when a value has it.
  abbrev pub has_key : Text → List (Text × A) → Bool
  has_key j pairs = any (λ p. text_eq p.0 j) pairs

  pub contains-keys_from :
      (j : Text) (keys : List Text) (pairs : List (Text × A))
      → contains j (keys_from keys pairs) ≡ (contains j keys || has_key j pairs)
  unfolding keys_from
  contains-keys_from j keys [] = ground arith
  contains-keys_from j keys ((key, x) ∷ pairs) =
      ground (arith, contains-keys_from j (add key keys) pairs, contains-add j key keys)

  pub values_of-nonempty :
      (j : Text) (pairs : List (Text × A)) → has_key j pairs ≡ true → 0 < length (values_of j pairs)
  unfolding values_of
  values_of-nonempty j [] h = ground arith
  values_of-nonempty j ((key, x) ∷ pairs) h = ground (arith, values_of-nonempty j pairs)

  pub values_of-outside :
      (j : Text) (pairs : List (Text × A)) → has_key j pairs ≡ false → values_of j pairs ≡ []
  unfolding values_of
  values_of-outside j [] h = refl
  values_of-outside j ((key, x) ∷ pairs) h = ground (arith, values_of-outside j pairs)

  -- What is pushed to an empty map.
  pub push_all-Table :
      (pairs : List (Text × A))
      → push_all [] pairs ≡ table (λ key. values_of key pairs) (keys_from [] pairs)
  unfolding Distinct table
  push_all-Table pairs = push_all-table (λ j. []) [] pairs tt (λ j h. refl)
