-- ===== src/Release/LoadTests.antt =====
-- Commits for the runs of scripts/generate-release-notes.js, and how they are loaded.
use Prim.Native.Nat.{compare, Ordering}
use alt_sendme.Prelude.{
  ◌-◌, ◌&&◌, ◌≡◌, refl, false, Text, codes, text_eq, Option, none, some, List, [], ◌∷◌, map, length,
  join, contains, get, split, non_empty, trim, is_space, trim_start, leb, if◌then◌else◌,
}
use alt_sendme.Release.Commits.{
  Commit, parse_commit, normalize_scope, normalize_commit, normalize_commits, load_commits,
}
use alt_sendme.Release.Patterns.{
  take_while, drop_while, after, after_any_case, has_pairing_from, has_pairing_keyword,
  is_prototype, scope_group, subject_group, behind_scope, match_conventional, fold_case,
}

abbrev pub lower : Text → Text
lower text = map fold_case text

abbrev pub upper : Text → Text
upper text = map (λ c. if leb b'a' c && leb c b'z' then c - 32 else c) text

abbrev pub by_length : Text → Text → Ordering
by_length a b = compare (length a) (length b)

-- Lines, one under the other.
abbrev pub lines : List Text → Text
lines ls = join (10 ∷ []) ls

abbrev pub log : Text
log = lines (
    codes "feat(ui): dark mode"
    ∷ codes "fix(ui): Dark Mode"
    ∷ codes "feat: pair by code"
    ∷ codes "chore: bump"
    ∷ codes "tidy up"
    ∷ codes "feat(Pair): rename"
    ∷ [])

abbrev pub commit : Text → Option Text → Text → Commit
commit type scope subject = record {
  type = type;
  scope = scope;
  scope_inherited = false;
  subject = subject;
}

loaded :
    load_commits lower log
    ≡ commit (codes "feat") (some (codes "ui")) (codes "dark mode")
      ∷ commit (codes "fix") (some (codes "ui")) (codes "Dark Mode")
      ∷ commit (codes "feat") (some (codes "pairing")) (codes "pair by code")
      ∷ commit (codes "other") none (codes "tidy up")
      ∷ commit (codes "feat") (some (codes "pairing")) (codes "rename")
      ∷ []
unfolding load_commits split non_empty parse_commit normalize_commits normalize_commit
    normalize_scope is_prototype has_pairing_keyword has_pairing_from match_conventional take_while
    drop_while scope_group subject_group behind_scope after after_any_case trim trim_start is_space
    contains get text_eq
loaded = refl
