-- ===== src/Samples.antt =====
-- Whole numbers in the place of the language's, for runs of the code on small inputs.
use alt_sendme.Prelude.{
  ℕ, ◌+◌, ◌-◌, ◌*◌, ◌/◌, not, false, true, Text, [], ◌∷◌, leb, ltb, ◌==◌, if◌then◌else◌,
}
use alt_sendme.Transfer.{Numbers}

-- Digits up to the first other character.
abbrev digits_of : ℕ → Text → ℕ
digits_of n [] = n
digits_of n (c ∷ s) =
    let rest = digits_of (n * 10 + (c - b'0')) s in
    if leb b'0' c then (if leb c b'9' then rest else n) else n

abbrev pub whole : Numbers ℕ
whole = record {
  zero = 0;
  one = 1;
  hundred = 100;
  thousand = 1000;
  add = λ a b. a + b;
  sub = λ a b. a - b;
  div = λ a b. a / b;
  mul = λ a b. a * b;
  max = λ a b. if leb a b then b else a;
  min = λ a b. if leb a b then a else b;
  gt = λ a b. ltb b a;
  le = leb;
  is_nan = λ a. false;
  is_finite = λ a. true;
  truthy = λ a. not (a == 0);
  parse_int = digits_of 0;
}
