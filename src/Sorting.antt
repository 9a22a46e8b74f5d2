-- ===== src/Sorting.antt =====
-- A stable sort by a comparison, as that of `Array.prototype.sort`: it permutes and sorts.
use Prim.Native.Nat.{Ordering}
use mathlib.Core.List.{Permᴰ}
use alt_sendme.Prelude.{
  ◌≡◌, refl, Bool, true, false, List, [], ◌∷◌, All, Bool-cases, inl, inr, length, suc, arith,
  if◌then◌else◌,
}

-- `[...list].sort(order)`, which is stable.
abbrev pub is_after : Ordering → Bool
is_after Ordering.lt = false
is_after Ordering.eq = false
is_after Ordering.gt = true

module _ {A : Type 0} (order : A → A → Ordering) where
  abbrev pub insert : A → List A → List A
  insert x [] = x ∷ []
  insert x (y ∷ ys) =
      let rest = insert x ys in if is_after (order x y) then y ∷ rest else x ∷ y ∷ ys

  abbrev pub sort : List A → List A
  sort [] = []
  sort (x ∷ xs) = insert x (sort xs)

-- What an order of a sort must be: of two values, one is not after the other, and not being after
-- is transitive.
pub record IsOrder {A : Type 0} (order : A → A → Ordering) : Type 0 where
  pub total : (a b : A) → is_after (order a b) ≡ true → is_after (order b a) ≡ false
  pub trans :
      (a b c : A)
      → is_after (order a b) ≡ false
      → is_after (order b c) ≡ false
      → is_after (order a c) ≡ false

module _ {A : Type 0} (order : A → A → Ordering) where
  abbrev pub NotAfter : A → A → Type 0
  NotAfter a b = is_after (order a b) ≡ false

  -- Every element is not after any of those that follow it.
  abbrev pub Sorted : List A → Type 0
  Sorted [] = Unit
  Sorted (x ∷ xs) = All (NotAfter x) xs × Sorted xs

  same-Permᴰ : (xs : List A) → Permᴰ xs xs
  same-Permᴰ [] = Permᴰ.nil
  same-Permᴰ (x ∷ xs) = Permᴰ.cons refl (same-Permᴰ xs)

  insert-Permᴰ : (x : A) (xs : List A) → Permᴰ (insert order x xs) (x ∷ xs)
  insert-Permᴰ x [] = Permᴰ.cons refl Permᴰ.nil
  insert-Permᴰ x (y ∷ ys) = elim (Bool-cases (is_after (order x y))) [
    | inl after ↦
        rw after (Permᴰ.trans (Permᴰ.cons refl (insert-Permᴰ x ys)) (Permᴰ.swap refl refl))
    | inr before ↦ rw before (same-Permᴰ (x ∷ y ∷ ys))
  ]

  pub sort-Permᴰ : (xs : List A) → Permᴰ (sort order xs) xs
  sort-Permᴰ [] = Permᴰ.nil
  sort-Permᴰ (x ∷ xs) =
      Permᴰ.trans (insert-Permᴰ x (sort order xs)) (Permᴰ.cons refl (sort-Permᴰ xs))

  insert-All : (P : A → Type 0) (x : A) (xs : List A) → P x → All P xs → All P (insert order x xs)
  insert-All P x [] p ps = (p, tt)
  insert-All P x (y ∷ ys) p ps = elim (Bool-cases (is_after (order x y))) [
    | inl after ↦ rw after (ps.0, insert-All P x ys p ps.1)
    | inr before ↦ rw before (p, ps)
  ]

  All-trans :
      (o : IsOrder order) (x y : A) (ys : List A)
      → NotAfter x y
      → All (NotAfter y) ys
      → All (NotAfter x) ys
  All-trans o x y [] e ps = tt
  All-trans o x y (z ∷ ys) e ps = (o.trans x y z e ps.0, All-trans o x y ys e ps.1)

  pub insert-Sorted :
      (o : IsOrder order) (x : A) (xs : List A) → Sorted xs → Sorted (insert order x xs)
  insert-Sorted o x [] s = (tt, tt)
  insert-Sorted o x (y ∷ ys) s = elim (Bool-cases (is_after (order x y))) [
    | inl after ↦
        rw after (insert-All (NotAfter y) x ys (o.total x y after) s.0, insert-Sorted o x ys s.1)
    | inr before ↦ rw before ((before, All-trans o x y ys before s.0), s)
  ]

  pub sort-Sorted : (o : IsOrder order) (xs : List A) → Sorted (sort order xs)
  sort-Sorted o [] = tt
  sort-Sorted o (x ∷ xs) = insert-Sorted o x (sort order xs) (sort-Sorted o xs)

  length-insert : (x : A) (xs : List A) → length (insert order x xs) ≡ suc (length xs)
  length-insert x [] = refl
  length-insert x (y ∷ ys) = ground (arith, length-insert x ys)

  pub length-sort : (xs : List A) → length (sort order xs) ≡ length xs
  length-sort [] = refl
  length-sort (x ∷ xs) = omega (arith, length-insert x (sort order xs), length-sort xs)
