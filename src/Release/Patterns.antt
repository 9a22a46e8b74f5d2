-- ===== src/Release/Patterns.antt =====
-- scripts/generate-release-notes.js: the regular expressions, each as the matcher of that one
-- expression. Under the flag `i` a letter of a pattern matches its two ASCII cases only; `.` matches
-- all but a line terminator.
use alt_sendme.Prelude.{
  ℕ, ◌+◌, Bool, true, false, not, ◌&&◌, ◌||◌, Text, codes, Option, none, some, List, [], ◌∷◌, ◌==◌,
  leb, if◌then◌else◌, ◌>>=◌, is_some, is_empty, is_space, trim_start, last_or, any,
}

abbrev pub is_digit : ℕ → Bool
is_digit c = leb b'0' c && leb c b'9'

abbrev pub is_letter : ℕ → Bool
is_letter c = (leb b'a' c && leb c b'z') || (leb b'A' c && leb c b'Z')

-- `\w`
abbrev pub is_word : ℕ → Bool
is_word c = is_letter c || is_digit c || c == b'_'

-- `[A-Za-z0-9-]`
abbrev pub is_login : ℕ → Bool
is_login c = is_letter c || is_digit c || c == b'-'

-- What `.` does not match.
abbrev pub is_terminator : ℕ → Bool
is_terminator c = c == 10 || c == 13 || c == 8232 || c == 8233

-- A unit as the flag `i` compares it.
abbrev pub fold_case : ℕ → ℕ
fold_case c = if leb b'A' c && leb c b'Z' then c + 32 else c

-- The longest start of units of a class, and what follows it.
unfoldable pub take_while : (ℕ → Bool) → Text → Text
take_while p [] = []
take_while p (c ∷ s) = let rest = take_while p s in if p c then c ∷ rest else []

unfoldable pub drop_while : (ℕ → Bool) → Text → Text
drop_while p [] = []
drop_while p (c ∷ s) = let rest = drop_while p s in if p c then rest else c ∷ s

-- What follows a literal at the start, and the same under the flag `i` for one in lower case.
unfoldable pub after : Text → Text → Option Text
after [] s = some s
after (c ∷ l) [] = none
after (c ∷ l) (d ∷ s) = let rest = after l s in if c == d then rest else none

unfoldable pub after_any_case : Text → Text → Option Text
after_any_case [] s = some s
after_any_case (c ∷ l) [] = none
after_any_case (c ∷ l) (d ∷ s) =
    let rest = after_any_case l s in if c == fold_case d then rest else none

-- What follows units of a class, of which there must be one.
unfoldable pub after_some : (ℕ → Bool) → Text → Option Text
unfolding take_while drop_while
after_some p s = if is_empty (take_while p s) then none else some (drop_while p s)

-- Whether `.test` finds a literal in lower case under the flag `i`.
unfoldable pub includes_any_case : Text → Text → Bool
unfolding after_any_case
includes_any_case l [] = is_some (after_any_case l [])
includes_any_case l (c ∷ s) = is_some (after_any_case l (c ∷ s)) || includes_any_case l s

-- `\b` behind a word.
abbrev pub ends_word : Option Text → Bool
ends_word none = false
ends_word (some []) = true
ends_word (some (c ∷ s)) = not (is_word c)

-- Whether one of the words stands at the start, with `\b` behind it.
abbrev pub starts_with_word : List Text → Text → Bool
starts_with_word words s = any (λ w. ends_word (after_any_case w s)) words

-- The words of `PAIRING_KEYWORDS`
abbrev pub pairing_words : List Text
pairing_words =
    codes "pair"
    ∷ codes "pairing"
    ∷ codes "paired"
    ∷ codes "invite"
    ∷ codes "paired device"
    ∷ codes "paired devices"
    ∷ codes "pairing ticket"
    ∷ []

-- The search from a place on, behind the unit `previous`.
unfoldable pub has_pairing_from : ℕ → Text → Bool
has_pairing_from previous [] = false
has_pairing_from previous (c ∷ s) =
    (not (is_word previous) && starts_with_word pairing_words (c ∷ s)) || has_pairing_from c s

-- `PAIRING_KEYWORDS.test(subject)`
unfoldable pub has_pairing_keyword : Text → Bool
unfolding has_pairing_from
has_pairing_keyword subject = has_pairing_from 32 subject

-- `/^prototype for pair mode$/i`
unfoldable pub is_prototype : Text → Bool
unfolding after_any_case
is_prototype subject = elim (after_any_case (codes "prototype for pair mode") subject) [
  | none ↦ false
  | some rest ↦ is_empty rest
]

-- `RELEASE_PR_TITLE.test(title)`
unfoldable pub is_release_title : Text → Bool
unfolding after after_any_case after_some is_space
is_release_title title = is_some (do
  s ← after_any_case (codes "release") title
  s ← after_some is_space s
  s ← after_some is_digit s
  s ← after (codes ".") s
  s ← after_some is_digit s
  s ← after (codes ".") s
  after_some is_digit s)

-- `/^(chore|ci|build|test|bump|debug|docs|documentation)\b/i`
unfoldable pub is_skipped_title : Text → Bool
unfolding after_any_case
is_skipped_title title =
    starts_with_word
      (codes "chore"
        ∷ codes "ci"
        ∷ codes "build"
        ∷ codes "test"
        ∷ codes "bump"
        ∷ codes "debug"
        ∷ codes "docs"
        ∷ codes "documentation"
        ∷ [])
      title

-- The groups of `CONVENTIONAL`
pub record Conventional : Type 0 where
  pub type : Text
  pub scope : Option Text
  pub subject : Text

-- `\)` behind `[^)]+`: the scope and what follows it.
abbrev close_scope : Text → Text → Option (Text × Text)
close_scope [] rest = none
close_scope (c ∷ scope) [] = none
close_scope (c ∷ scope) (d ∷ rest) = some (c ∷ scope, rest)

-- `[^)]`
abbrev in_scope : ℕ → Bool
in_scope c = not (c == b')')

-- `\((?<scope>[^)]+)\)`
unfoldable pub scope_group : Text → Option (Text × Text)
unfolding take_while drop_while
scope_group [] = none
scope_group (c ∷ s) =
    if c == b'(' then close_scope (take_while in_scope s) (drop_while in_scope s) else none

-- The last unit alone.
abbrev last_unit : Text → Text
last_unit [] = []
last_unit (c ∷ s) = last_or s c ∷ []

-- `\s*(?<subject>.+)$`: where only white space is left, `\s*` leaves its last unit to the subject.
unfoldable pub subject_group : Text → Option Text
unfolding trim_start
subject_group s =
    let subject = if is_empty (trim_start s) then last_unit s else trim_start s in
    if is_empty subject || any is_terminator subject then none else some subject

-- `!?`
abbrev skip_bang : Text → Text
skip_bang [] = []
skip_bang (c ∷ s) = if c == b'!' then s else c ∷ s

-- What follows the scope, or the type where no scope matches.
unfoldable pub behind_scope : Text → Option Text → Text → Option Conventional
unfolding after subject_group
behind_scope type scope s = do
  s ← after (codes ":") (skip_bang s)
  subject ← subject_group s
  some (record { type = type; scope = scope; subject = subject })

abbrev behind_type : Text → Text → Option (Text × Text) → Option Conventional
behind_type type s none = behind_scope type none s
behind_type type s (some (scope, rest)) = behind_scope type (some scope) rest

-- `subject.match(CONVENTIONAL)`. No other way to match its parts leads further: a shorter type is
-- followed by a letter, and without its scope by a bracket.
unfoldable pub match_conventional : Text → Option Conventional
unfolding take_while drop_while scope_group behind_scope
match_conventional text =
    let rest = drop_while is_letter text in
    if is_empty (take_while is_letter text)
    then none
    else behind_type (take_while is_letter text) rest (scope_group rest)
