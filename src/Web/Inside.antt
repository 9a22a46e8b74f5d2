-- ===== src/Web/Inside.antt =====
-- frontend/src/lib/web-drag-drop.ts: the files of a dropped folder have paths inside of it.
use alt_sendme.Prelude.{
  ◌≡◌, refl, sym, subst, ◌∙◌, true, false, Text, text_eq, is_empty, none, some, [], ◌∷◌, ◌++◌, All,
  arith, append_assoc, All-append,
}
use alt_sendme.Web.Files.{starts_with}
use alt_sendme.Web.Entries.{
  Entry, Answers, file_entry, directory_entry, other_entry, Found, path_in, both, Entries, rejected,
  answer, nil, cons,
}
use alt_sendme.Web.Reading.{files_of, files_of_answers, files_of_entries}

starts_with-append : (a b : Text) → starts_with a (a ++ b) ≡ true
starts_with-append [] b = refl
starts_with-append (c ∷ a) b = ground (arith, starts_with-append a b)

starts_with_shorter : (a b p : Text) → starts_with (a ++ b) p ≡ true → starts_with a p ≡ true
starts_with_shorter [] b p h = refl
starts_with_shorter (c ∷ a) b [] h = h
starts_with_shorter (c ∷ a) b (d ∷ p) h = ground (arith, starts_with_shorter a b p)

abbrev pub IsInside : Text → Text → Type 0
IsInside folder path = starts_with (folder ++ b'/' ∷ []) path ≡ true

pub IsInside-not_folder : (folder path : Text) → IsInside folder path → text_eq folder path ≡ false
unfolding text_eq
IsInside-not_folder [] [] h = sym h
IsInside-not_folder [] (d ∷ path) h = refl
IsInside-not_folder (c ∷ folder) [] h = refl
IsInside-not_folder (c ∷ folder) (d ∷ path) h = ground (arith, IsInside-not_folder folder path)

abbrev pub AllInside : Text → Found → Type 0
AllInside base none = Unit
AllInside base (some found) = All (λ x. IsInside base (x.0)) found

both-AllInside :
    (base : Text) (a b : Found) → AllInside base a → AllInside base b → AllInside base (both a b)
both-AllInside base none b h k = tt
both-AllInside base (some xs) none h k = tt
both-AllInside base (some xs) (some ys) h k = All-append (λ x. IsInside base (x.0)) xs ys h k

file-IsInside : (base name : Text) → is_empty base ≡ false → IsInside base (path_in base name)
file-IsInside [] name h = ground (arith, h)
file-IsInside (c ∷ base) name h =
    subst (λ p. starts_with ((c ∷ base) ++ b'/' ∷ []) p ≡ true)
      (append_assoc (c ∷ base) (b'/' ∷ []) name) (starts_with-append ((c ∷ base) ++ b'/' ∷ []) name)

deeper-IsInside :
    (base name path : Text)
    → is_empty base ≡ false
    → IsInside (path_in base name) path
    → IsInside base path
deeper-IsInside [] name path h k = ground (arith, h)
deeper-IsInside (c ∷ base) name path h k =
    let longer = (c ∷ base) ++ (b'/' ∷ name) ++ b'/' ∷ [] in
    starts_with_shorter ((c ∷ base) ++ b'/' ∷ []) (name ++ b'/' ∷ []) path (
      subst (λ q. starts_with q path ≡ true)
        (append_assoc (c ∷ base) (b'/' ∷ name) (b'/' ∷ [])
          ∙ sym (append_assoc (c ∷ base) (b'/' ∷ []) (name ++ b'/' ∷ [])))
        k)

path_in_not_empty :
    (base name : Text) → is_empty base ≡ false → is_empty (path_in base name) ≡ false
path_in_not_empty [] name h = ground (arith, h)
path_in_not_empty (c ∷ base) name h = refl

AllInside-up :
    (base name : Text) (a : Found)
    → is_empty base ≡ false
    → AllInside (path_in base name) a
    → AllInside base a
AllInside-up base name none h k = tt
AllInside-up base name (some []) h k = tt
AllInside-up base name (some ((p, f) ∷ found)) h k =
    (deeper-IsInside base name p h (k.0), AllInside-up base name (some found) h (k.1))

mutual
  unfolding files_of

  files_of-AllInside :
      (base : Text) (e : Entry) → is_empty base ≡ false → AllInside base (files_of base e)
  files_of-AllInside base (file_entry name none) h = tt
  files_of-AllInside base (file_entry name (some f)) h = (file-IsInside base name h, tt)
  files_of-AllInside base (directory_entry name answers) h =
      AllInside-up base name (files_of_answers (path_in base name) answers) h
        (answers-AllInside (path_in base name) answers (path_in_not_empty base name h))
  files_of-AllInside base other_entry h = tt

  pub answers-AllInside :
      (base : Text) (answers : Answers)
      → is_empty base ≡ false
      → AllInside base (files_of_answers base answers)
  answers-AllInside base rejected h = tt
  answers-AllInside base (answer nil rest) h = tt
  answers-AllInside base (answer (cons e es) rest) h =
      both-AllInside base (both (files_of base e) (files_of_entries base es))
        (files_of_answers base rest)
        (both-AllInside base (files_of base e) (files_of_entries base es)
          (files_of-AllInside base e h) (entries-AllInside base es h))
        (answers-AllInside base rest h)

  entries-AllInside :
      (base : Text) (es : Entries)
      → is_empty base ≡ false
      → AllInside base (files_of_entries base es)
  entries-AllInside base nil h = tt
  entries-AllInside base (cons e es) h =
      both-AllInside base (files_of base e) (files_of_entries base es) (files_of-AllInside base e h)
        (entries-AllInside base es h)
