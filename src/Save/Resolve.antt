-- ===== src/Save/Resolve.antt =====
-- frontend/src/lib/web-save-location.ts: which name `resolveWritableFileName` finds.
use alt_sendme.Prelude.{
  ℕ, zero, suc, ◌+◌, ◌≤◌, ◌<◌, ◌≡◌, refl, Bool, true, false, Text, Option, none, some, [], ◌∷◌,
  ◌++◌, length, take, drop, arith, text_eq, text_eq_iff, text_eq_refl, length-append, Bool-cases,
  inl, inr, sym, ap, ◌∙◌, or_else,
}
use alt_sendme.Save.Names.{
  WriteConflict, Resolved, last_index_of, numbered, insert_number, resolve_conflict_name,
  resolve_from, resolve_writable_file_name,
}

take-drop : (n : ℕ) (xs : Text) → length (take n xs) + length (drop n xs) ≡ length xs
take-drop zero xs = omega arith
take-drop (suc n) [] = omega arith
take-drop (suc n) (x ∷ xs) = omega (arith, take-drop n xs)

numbered-length : (index : ℕ) → 2 ≤ length (numbered index)
numbered-length index = omega (arith)

pub insert_number-longer :
    (name : Text) (index : ℕ) (dot : Option ℕ) → length name < length (insert_number name index dot)
insert_number-longer name index none = omega (arith, length-append name (numbered index))
insert_number-longer name index (some zero) = omega (arith, length-append name (numbered index))
insert_number-longer name index (some (suc dot)) = omega (
  arith,
  take-drop (suc dot) name,
  length-append (take (suc dot) name ++ numbered index) (drop (suc dot) name),
  length-append (take (suc dot) name) (numbered index),
)

-- The candidates in their order: the name itself, then with the numbers from one on.
abbrev pub candidate_at : Text → ℕ → Text
candidate_at name zero = name
candidate_at name (suc k) = resolve_conflict_name name (suc k)

abbrev pub conflict_at : Text → ℕ → Option WriteConflict
conflict_at name zero = none
conflict_at name (suc k) = some (record { original = name; resolved = candidate_at name (suc k) })

numbered-differs : (name : Text) (k : ℕ) → text_eq (candidate_at name (suc k)) name ≡ false
unfolding resolve_conflict_name
numbered-differs name k = elim (Bool-cases (text_eq (candidate_at name (suc k)) name)) [
  | inl same ↦
      let e : length (candidate_at name (suc k)) ≡ length name =
        ap length ((text_eq_iff (candidate_at name (suc k)) name).0 same) in
      absurd (omega (arith, e, insert_number-longer name (suc k) (last_index_of b'.' name)))
  | inr other ↦ other
]

found_at :
    (exists : Text → Bool) (name : Text) (k rounds : ℕ)
    → exists (candidate_at name k) ≡ false
    → resolve_from exists name (candidate_at name k) (suc k) (suc rounds)
      ≡ some (record { file_name = candidate_at name k; conflict = conflict_at name k })
unfolding resolve_from
found_at exists name zero rounds free = rw (free, text_eq_refl name)
found_at exists name (suc k) rounds free = rw (free, numbered-differs name k)

taken_at :
    (exists : Text → Bool) (name : Text) (k rounds : ℕ)
    → exists (candidate_at name k) ≡ true
    → resolve_from exists name (candidate_at name k) (suc k) (suc rounds)
      ≡ resolve_from exists name (candidate_at name (suc k)) (suc (suc k)) rounds
unfolding resolve_from
taken_at exists name k rounds taken = rw taken

-- The first `n` candidates from `k` on are taken.
abbrev pub AllTaken : (Text → Bool) → Text → ℕ → ℕ → Type 0
AllTaken exists name k n = (j : ℕ) → j < n → exists (candidate_at name (k + j)) ≡ true

shift-taken :
    (exists : Text → Bool) (name : Text) (k n : ℕ)
    → AllTaken exists name k (suc n)
    → AllTaken exists name (suc k) n
shift-taken exists name k n taken j h =
    let e : suc k + j ≡ k + suc j = omega arith in rw e (taken (suc j) (omega (arith, h)))

first-taken :
    (exists : Text → Bool) (name : Text) (k n : ℕ)
    → AllTaken exists name k (suc n)
    → exists (candidate_at name k) ≡ true
first-taken exists name k n taken = let e : k ≡ k + 0 = omega arith in rw e (taken 0 (omega arith))

resolve_from-finds :
    (exists : Text → Bool) (name : Text) (n k rounds : ℕ)
    → AllTaken exists name k n
    → exists (candidate_at name (k + n)) ≡ false
    → n < rounds
    → resolve_from exists name (candidate_at name k) (suc k) rounds
      ≡ some (record { file_name = candidate_at name (k + n); conflict = conflict_at name (k + n) })
resolve_from-finds exists name n k zero taken free h = absurd (omega (arith, h))
resolve_from-finds exists name zero k (suc rounds) taken free h =
    let e : k + 0 ≡ k = omega arith in rw e (found_at exists name k rounds (rw (← e) free))
resolve_from-finds exists name (suc n) k (suc rounds) taken free h =
    let e : k + suc n ≡ suc k + n = omega arith in
    taken_at exists name k rounds (first-taken exists name k n taken)
    ∙ rw e (
        resolve_from-finds exists name n (suc k) rounds (shift-taken exists name k n taken)
          (rw (← e) free) (omega (arith, h)))

resolve_from-fails :
    (exists : Text → Bool) (name : Text) (rounds k : ℕ)
    → AllTaken exists name k rounds
    → resolve_from exists name (candidate_at name k) (suc k) rounds ≡ none
unfolding resolve_from
resolve_from-fails exists name zero k taken = refl
resolve_from-fails exists name (suc rounds) k taken =
    taken_at exists name k rounds (first-taken exists name k rounds taken)
    ∙ resolve_from-fails exists name rounds (suc k) (shift-taken exists name k rounds taken)

-- Whatever is found is free.
pub resolve_from-free :
    (exists : Text → Bool) (name : Text) (rounds k : ℕ) (r : Resolved)
    → resolve_from exists name (candidate_at name k) (suc k) rounds ≡ some r
    → exists r.file_name ≡ false
unfolding resolve_from
resolve_from-free exists name zero k r e = cc
resolve_from-free exists name (suc rounds) k r e =
    elim (Bool-cases (exists (candidate_at name k))) [
      | inl taken ↦
          resolve_from-free exists name rounds (suc k) r
            (sym (taken_at exists name k rounds taken) ∙ e)
      | inr free ↦
          rw (← ap (λ o. (or_else o r).file_name) (sym (found_at exists name k rounds free) ∙ e))
            free
    ]

-- The first name that is free is found: if the name itself and the names with the numbers up to
-- `k - 1` are taken, the name with the number `k` (the name itself for 0) is free, and `k` is below
-- 9999, then it is the result, with a conflict that tells both names, or none for the name itself.
pub resolve_writable_file_name-finds :
    (exists : Text → Bool) (name : Text) (k : ℕ)
    → AllTaken exists name 0 k
    → exists (candidate_at name k) ≡ false
    → k < 9999
    → resolve_writable_file_name exists name
      ≡ some (record { file_name = candidate_at name k; conflict = conflict_at name k })
unfolding resolve_writable_file_name
resolve_writable_file_name-finds exists name k taken free h =
    let e : 0 + k ≡ k = omega arith in
    rw (← e) (resolve_from-finds exists name k 0 9999 taken (rw e free) h)

pub resolve_writable_file_name-free :
    (exists : Text → Bool) (name : Text) (r : Resolved)
    → resolve_writable_file_name exists name ≡ some r
    → exists r.file_name ≡ false
unfolding resolve_writable_file_name
resolve_writable_file_name-free exists name r e = resolve_from-free exists name 9999 0 r e

-- If the name and its 9998 numbered variants are all taken, saving fails with an error.
pub resolve_writable_file_name-fails :
    (exists : Text → Bool) (name : Text)
    → AllTaken exists name 0 9999
    → resolve_writable_file_name exists name ≡ none
unfolding resolve_writable_file_name
resolve_writable_file_name-fails exists name taken = resolve_from-fails exists name 9999 0 taken
