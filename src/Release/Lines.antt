-- ===== src/Release/Lines.antt =====
-- scripts/generate-release-notes.js: the regular expressions for the lines of the notes that GitHub
-- generates, and for addresses.
use alt_sendme.Prelude.{
  ℕ, Bool, true, false, not, Text, codes, Option, none, some, [], ◌∷◌, ◌++◌, ◌==◌, if◌then◌else◌,
  ◌>>=◌, is_empty,
}
use alt_sendme.Release.Patterns.{
  is_digit, is_login, is_terminator, take_while, drop_while, after, after_any_case, after_some,
}

-- `line.startsWith(start)`
unfoldable pub starts_with : Text → Text → Bool
unfolding after
starts_with start line = elim (after start line) [ none ↦ false | some rest ↦ true ]

-- `line.replace(/^\* /, '- ')`
unfoldable pub dashed : Text → Text
unfolding after
dashed line = elim (after (codes "* ") line) [ none ↦ line | some rest ↦ codes "- " ++ rest ]

-- `([A-Za-z0-9-]+)` at a place, followed by `end`.
unfoldable pub login_before : Text → Text → Option Text
unfolding after take_while drop_while after_some
login_before end s = do
  rest ← after_some is_login s
  _ ← after end rest
  some (take_while is_login s)

-- ` by @([A-Za-z0-9-]+) in ` at a place.
unfoldable pub by_login : Text → Option Text
unfolding after login_before
by_login s = do s ← after (codes " by @") s; login_before (codes " in ") s

-- `.+` takes what it can: the last place that leads to a match, behind one unit at least.
unfoldable pub last_by_login : Text → Option Text
unfolding by_login
last_by_login [] = none
last_by_login (c ∷ s) =
    if is_terminator c
    then none
    else elim (last_by_login s) [ none ↦ by_login s | some login ↦ some login ]

-- `line.match(/\* .+ by @([A-Za-z0-9-]+) in /)`, from the first place that leads to a match.
unfoldable pub credited_login : Text → Option Text
unfolding after last_by_login
credited_login [] = none
credited_login (c ∷ s) =
    let here = (do rest ← after (codes "* ") (c ∷ s); last_by_login rest) in
    elim here [ none ↦ credited_login s | some login ↦ some login ]

-- `line.match(/@([A-Za-z0-9-]+)/)`
unfoldable pub mentioned_login : Text → Option Text
unfolding login_before
mentioned_login [] = none
mentioned_login (c ∷ s) =
    let here = (if c == b'@' then login_before [] s else none) in
    elim here [ none ↦ mentioned_login s | some login ↦ some login ]

-- `(.+?) by @`: the units in front of the first ` by @` that leave one at least.
unfoldable pub first_by : Text → Option Text
unfolding after_any_case
first_by [] = none
first_by (c ∷ s) = if is_terminator c then none else elim (after_any_case (codes " by @") s) [
  | some rest ↦ some (c ∷ [])
  | none ↦ do title ← first_by s; some (c ∷ title)
]

-- `line.match(/\* (.+?) by @/i)`
unfoldable pub title_of : Text → Option Text
unfolding after first_by
title_of [] = none
title_of (c ∷ s) =
    let here = (do rest ← after (codes "* ") (c ∷ s); first_by rest) in
    elim here [ none ↦ title_of s | some title ↦ some title ]

abbrev before_at : ℕ → Bool
before_at c = not (c == b'@')

-- `([^@]+)@users\.noreply\.github\.com$`
unfoldable pub user_of : Text → Option Text
unfolding take_while drop_while after_any_case after_some
user_of s = do
  rest ← after_some before_at s
  end ← after_any_case (codes "@users.noreply.github.com") rest
  if is_empty end then some (take_while before_at s) else none

-- `\d+\+`
abbrev after_number : Text → Option Text
after_number s = do s ← after_some is_digit s; after (codes "+") s

-- `email.match(/^(?:\d+\+)?([^@]+)@users\.noreply\.github\.com$/i)`: with the number first, without
-- it where that fails.
unfoldable pub noreply_user : Text → Option Text
unfolding user_of after_some after
noreply_user email =
    let numbered = (do s ← after_number email; user_of s) in
    elim numbered [ none ↦ user_of email | some user ↦ some user ]
