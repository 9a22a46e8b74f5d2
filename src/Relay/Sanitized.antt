-- ===== src/Relay/Sanitized.antt =====
-- frontend/src/components/settings/relay/relay-settings.tsx: what is left of the URL that is typed.
use alt_sendme.Prelude.{
  ◌<◌, ◌⊎◌, ℕ, zero, suc, ◌+◌, ◌≤◌, true, false, ◌≡◌, refl, ap, ◌∙◌, Text, List, [], ◌∷◌, ◌++◌, All,
  All-append, length, arith, if_elim, is_space,
}
use alt_sendme.Relay.Editing.{
  max_relay_url_length, is_disallowed_relay_url_char, is_pair_of_units, chars, is_dropped,
  kept_chars, joined, sanitize_relay_url_input,
}

-- A unit that is neither white space nor one of the control characters 0 to 31 and 127 to 159.
abbrev pub IsPlain : ℕ → Type 0
IsPlain c = (is_space c ≡ false) × (31 < c) × ((c < 127) ⊎ (159 < c))

abbrev pub Clean : Text → Type 0
Clean text = All IsPlain text

abbrev Allowed : Text → Type 0
Allowed text = All (λ c. is_disallowed_relay_url_char c ≡ false) text

unit-IsPlain : (c : ℕ) → is_disallowed_relay_url_char c ≡ false → IsPlain c
unfolding is_disallowed_relay_url_char
unit-IsPlain c h = ground arith

IsPlain-unit : (c : ℕ) → IsPlain c → is_disallowed_relay_url_char c ≡ false
unfolding is_disallowed_relay_url_char
IsPlain-unit c p = ground arith

Allowed-Clean : (text : Text) → Allowed text → Clean text
Allowed-Clean [] a = tt
Allowed-Clean (c ∷ text) a = (unit-IsPlain c a.0, Allowed-Clean text a.1)

Clean-Allowed : (text : Text) → Clean text → Allowed text
Clean-Allowed [] a = tt
Clean-Allowed (c ∷ text) a = (IsPlain-unit c a.0, Clean-Allowed text a.1)

-- A unit adds one character at most, and takes none away.
chars-unit :
    (c : ℕ) (t : Text)
    → (length (chars (c ∷ t)) ≤ 1 + length (chars t)) × (length (chars t) ≤ length (chars (c ∷ t)))
unfolding chars
chars-unit c [] = (omega arith, omega arith)
chars-unit c (d ∷ []) = ground arith
chars-unit c (d ∷ e ∷ s) = ground (
  arith,
  (chars-unit d (e ∷ s)).0,
  (chars-unit d (e ∷ s)).1,
  (chars-unit e s).0,
  (chars-unit e s).1,
)

-- A character of a text: a unit, or a pair of surrogates.
data IsChar : Text → Type 0 where
  unit : {c : ℕ} → IsChar (c ∷ [])
  pair : {c d : ℕ} → is_pair_of_units c d ≡ true → IsChar (c ∷ d ∷ [])

chars-IsChar : (t : Text) → All IsChar (chars t)
unfolding chars
chars-IsChar [] = tt
chars-IsChar (c ∷ []) = (unit, tt)
chars-IsChar (c ∷ d ∷ s) =
    if_elim (All IsChar) (is_pair_of_units c d) ((c ∷ d ∷ []) ∷ chars s) ((c ∷ []) ∷ chars (d ∷ s))
      (λ e. (pair e, chars-IsChar s)) (λ e. (unit, chars-IsChar (d ∷ s)))

joined-chars : (t : Text) → joined (chars t) ≡ t
unfolding chars
joined-chars [] = refl
joined-chars (c ∷ []) = refl
joined-chars (c ∷ d ∷ s) =
    if_elim (λ cs. joined cs ≡ c ∷ d ∷ s) (is_pair_of_units c d) ((c ∷ d ∷ []) ∷ chars s)
      ((c ∷ []) ∷ chars (d ∷ s)) (λ e. ap (λ t. c ∷ d ∷ t) (joined-chars s))
      (λ e. ap (◌∷◌ c) (joined-chars (d ∷ s)))

-- The second of a pair is no white space and no control character.
low_is_allowed : (c d : ℕ) → is_pair_of_units c d ≡ true → is_disallowed_relay_url_char d ≡ false
unfolding is_disallowed_relay_url_char is_space
low_is_allowed c d h = ground arith

char-Allowed : (char : Text) → IsChar char → is_dropped char ≡ false → Allowed char
char-Allowed char (unit) h = (h, tt)
char-Allowed char (pair {c} {d} e) h = (h, (low_is_allowed c d e, tt))

kept-Allowed : (room : ℕ) (cs : List Text) → All IsChar cs → Allowed (joined (kept_chars room cs))
unfolding kept_chars
kept-Allowed room [] a = tt
kept-Allowed zero (char ∷ cs) a = tt
kept-Allowed (suc room) (char ∷ cs) a =
    if_elim (λ ks. Allowed (joined ks)) (is_dropped char) (kept_chars (suc room) cs)
      (char ∷ kept_chars room cs) (λ e. kept-Allowed (suc room) cs a.1)
      (λ e.
        All-append (λ c. is_disallowed_relay_url_char c ≡ false) char (joined (kept_chars room cs))
          (char-Allowed char a.0 e) (kept-Allowed room cs a.1))

kept-IsChar : (room : ℕ) (cs : List Text) → All IsChar cs → All IsChar (kept_chars room cs)
unfolding kept_chars
kept-IsChar room [] a = tt
kept-IsChar zero (char ∷ cs) a = tt
kept-IsChar (suc room) (char ∷ cs) a =
    if_elim (All IsChar) (is_dropped char) (kept_chars (suc room) cs) (char ∷ kept_chars room cs)
      (λ e. kept-IsChar (suc room) cs a.1) (λ e. (a.0, kept-IsChar room cs a.1))

length-kept : (room : ℕ) (cs : List Text) → length (kept_chars room cs) ≤ room
unfolding kept_chars
length-kept room [] = omega arith
length-kept zero (char ∷ cs) = omega arith
length-kept (suc room) (char ∷ cs) = ground (arith, length-kept (suc room) cs, length-kept room cs)

length-chars-char :
    (char t : Text) → IsChar char → length (chars (char ++ t)) ≤ 1 + length (chars t)
unfolding chars
length-chars-char char t (unit {c}) = (chars-unit c t).0
length-chars-char char t (pair {c} {d} e) = rw (e) (omega arith)

length-chars-joined : (cs : List Text) → All IsChar cs → length (chars (joined cs)) ≤ length cs
unfolding chars
length-chars-joined [] a = omega arith
length-chars-joined (char ∷ cs) a =
    omega (arith, length-chars-char char (joined cs) a.0, length-chars-joined cs a.1)

kept_if_allowed :
    (room : ℕ) (cs : List Text)
    → All (λ char. is_dropped char ≡ false) cs
    → length cs ≤ room
    → kept_chars room cs ≡ cs
unfolding kept_chars
kept_if_allowed room [] a h = refl
kept_if_allowed zero (char ∷ cs) a h = ground arith
kept_if_allowed (suc room) (char ∷ cs) a h = ground (arith, a.0, kept_if_allowed room cs a.1)

chars-kept : (t : Text) → Allowed t → All (λ char. is_dropped char ≡ false) (chars t)
unfolding chars
chars-kept [] a = tt
chars-kept (c ∷ []) a = a
chars-kept (c ∷ d ∷ s) a =
    if_elim (All (λ char. is_dropped char ≡ false)) (is_pair_of_units c d) ((c ∷ d ∷ []) ∷ chars s)
      ((c ∷ []) ∷ chars (d ∷ s)) (λ e. (a.0, chars-kept s a.1.1))
      (λ e. (a.0, chars-kept (d ∷ s) a.1))

sanitize-kept :
    (t : Text)
    → Allowed t
    → length (chars t) ≤ max_relay_url_length
    → sanitize_relay_url_input t ≡ t
unfolding sanitize_relay_url_input
sanitize-kept t a h =
    ap joined (kept_if_allowed max_relay_url_length (chars t) (chars-kept t a) h) ∙ joined-chars t

-- What is left of a URL that is typed has no white space and no control character, and 2048 characters
-- at most; to do it again changes nothing, and such a URL is left as it is.
pub sanitize_relay_url_input-Clean :
    (value : Text)
    → Clean (sanitize_relay_url_input value)
      × (length (chars (sanitize_relay_url_input value)) ≤ max_relay_url_length)
      × (sanitize_relay_url_input (sanitize_relay_url_input value) ≡ sanitize_relay_url_input value)
      × (Clean value
          → length (chars value) ≤ max_relay_url_length
          → sanitize_relay_url_input value ≡ value)
unfolding sanitize_relay_url_input
sanitize_relay_url_input-Clean value =
    let cs : List Text = kept_chars max_relay_url_length (chars value) in
    let allowed : Allowed (joined cs) =
      kept-Allowed max_relay_url_length (chars value) (chars-IsChar value) in
    let short : length (chars (joined cs)) ≤ max_relay_url_length = omega (
      arith,
      length-chars-joined cs (kept-IsChar max_relay_url_length (chars value) (chars-IsChar value)),
      length-kept max_relay_url_length (chars value),
    ) in
    (
      Allowed-Clean (joined cs) allowed,
      short,
      sanitize-kept (joined cs) allowed short,
      λ clean. sanitize-kept value (Clean-Allowed value clean),
    )
