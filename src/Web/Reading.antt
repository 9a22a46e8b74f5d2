-- ===== src/Web/Reading.antt =====
-- frontend/src/lib/web-drag-drop.ts: reading a dropped directory ends, with all its files.
use Prim.Native.Nat.{max}
use mathlib.Core.List.{append_assoc, append-nil}
use alt_sendme.Prelude.{ℕ, zero, suc, ◌≤◌, ◌≡◌, refl, Text, none, some, [], ap, ◌∙◌, sym, arith}
use alt_sendme.Web.Entries.{
  Entry, file_entry, directory_entry, other_entry, Answers, rejected, answer, Entries, nil, cons,
  Found, append, read_batch, path_in, both, read_all, read_children, at_path,
  read_entry_recursively,
}

-- The files of an entry, batch by batch and by recursion on the tree, each with its path.
unfoldable mutual
  pub files_of : Text → Entry → Found
  files_of base (file_entry name f) = at_path (path_in base name) f
  files_of base (directory_entry name answers) = files_of_answers (path_in base name) answers
  files_of base other_entry = some []

  pub files_of_answers : Text → Answers → Found
  files_of_answers base rejected = none
  files_of_answers base (answer nil rest) = some []
  files_of_answers base (answer (cons e es) rest) =
      both (both (files_of base e) (files_of_entries base es)) (files_of_answers base rest)

  pub files_of_entries : Text → Entries → Found
  files_of_entries base nil = some []
  files_of_entries base (cons e es) = both (files_of base e) (files_of_entries base es)

-- How deep the tree is.
unfoldable mutual
  pub depth : Entry → ℕ
  depth (file_entry name f) = 1
  depth (directory_entry name answers) = suc (depth_answers answers)
  depth other_entry = 1

  pub depth_answers : Answers → ℕ
  depth_answers rejected = 0
  depth_answers (answer es rest) = max (depth_entries es) (depth_answers rest)

  pub depth_entries : Entries → ℕ
  depth_entries nil = 0
  depth_entries (cons e es) = max (depth e) (depth_entries es)

both_assoc : (a b c : Found) → both (both a b) c ≡ both a (both b c)
both_assoc none b c = refl
both_assoc (some x) none c = refl
both_assoc (some x) (some y) none = refl
both_assoc (some x) (some y) (some z) = ap some (append_assoc x y z)

both-some : (a : Found) → both (some []) a ≡ a
both-some none = refl
both-some (some x) = refl

both-none : (a : Found) → both a none ≡ none
both-none none = refl
both-none (some x) = refl

both-empty : (a : Found) → both a (some []) ≡ a
both-empty none = refl
both-empty (some x) = ap some (append-nil x)

read_all-append :
    (f : Entry → Found) (a b : Entries)
    → read_all f (append a b) ≡ both (read_all f a) (read_all f b)
read_all-append f nil b = sym (both-some (read_all f b))
read_all-append f (cons e es) b =
    ap (both (f e)) (read_all-append f es b) ∙ sym (both_assoc (f e) (read_all f es) (read_all f b))

-- What is read with `f`, batch by batch.
abbrev read_answers : (Entry → Found) → Answers → Found
read_answers f rejected = none
read_answers f (answer nil rest) = some []
read_answers f (answer (cons e es) rest) = both (read_all f (cons e es)) (read_answers f rest)

read_children-read_batch :
    (f : Entry → Found) (all_entries : Entries) (answers : Answers)
    → read_children f (read_batch all_entries answers)
      ≡ both (read_all f all_entries) (read_answers f answers)
unfolding read_batch
read_children-read_batch f all_entries rejected = sym (both-none (read_all f all_entries))
read_children-read_batch f all_entries (answer nil rest) = sym (both-empty (read_all f all_entries))
read_children-read_batch f all_entries (answer (cons e es) rest) =
    read_children-read_batch f (append all_entries (cons e es)) rest
    ∙ ap (λ a. both a (read_answers f rest)) (read_all-append f all_entries (cons e es))
    ∙ both_assoc (read_all f all_entries) (read_all f (cons e es)) (read_answers f rest)

mutual
  unfolding read_entry_recursively files_of depth

  read_entry :
      (n : ℕ) (base : Text) (e : Entry)
      → depth e ≤ n
      → read_entry_recursively n base e ≡ files_of base e
  read_entry zero base (file_entry name f) h = grind (arith, h)
  read_entry zero base (directory_entry name answers) h = grind (arith, h)
  read_entry zero base other_entry h = grind (arith, h)
  read_entry (suc n) base (file_entry name f) h = refl
  read_entry (suc n) base (directory_entry name answers) h =
      read_children-read_batch (read_entry_recursively n (path_in base name)) nil answers
      ∙ both-some (read_answers (read_entry_recursively n (path_in base name)) answers)
      ∙ read_answers-files n (path_in base name) answers (omega (arith, h))
  read_entry (suc n) base other_entry h = refl

  read_answers-files :
      (n : ℕ) (base : Text) (answers : Answers)
      → depth_answers answers ≤ n
      → read_answers (read_entry_recursively n base) answers ≡ files_of_answers base answers
  read_answers-files n base rejected h = refl
  read_answers-files n base (answer nil rest) h = refl
  read_answers-files n base (answer (cons e es) rest) h = rw (
    read_entry n base e (omega (arith, h)),
    read_all-files n base es (omega (arith, h)),
    read_answers-files n base rest (omega (arith, h)),
  )

  read_all-files :
      (n : ℕ) (base : Text) (es : Entries)
      → depth_entries es ≤ n
      → read_all (read_entry_recursively n base) es ≡ files_of_entries base es
  read_all-files n base nil h = refl
  read_all-files n base (cons e es) h =
      rw (read_entry n base e (omega (arith, h)), read_all-files n base es (omega (arith, h)))

-- Reading a dropped entry ends, and in full: with as many nested calls as the entry is deep it gives
-- what recursion on the tree gives, each file of every batch up to the first empty one, in order and
-- with the names of the folders above it in its path; or it fails where the browser fails to give a
-- file or a batch.
pub read_entry_recursively-ends :
    (n : ℕ) (base : Text) (e : Entry)
    → depth e ≤ n
    → read_entry_recursively n base e ≡ files_of base e
read_entry_recursively-ends n base e h = read_entry n base e h
