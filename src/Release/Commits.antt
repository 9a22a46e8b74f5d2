-- ===== src/Release/Commits.antt =====
-- scripts/generate-release-notes.js: the commits, how they are read and normalized. `toLowerCase` is a
-- parameter. A table of the source is a plain object, which also has what every object inherits.
use alt_sendme.Prelude.{
  Bool, false, not, ◌&&◌, Text, codes, Option, none, some, List, [], ◌∷◌, split, non_empty, filter,
  trim, is_truthy, contains, get, map, if◌then◌else◌,
}
use alt_sendme.Release.Patterns.{
  Conventional, match_conventional, fold_case, has_pairing_keyword, is_prototype,
}

pub record Commit : Type 0 where
  pub type : Text
  pub scope : Option Text
  -- the scope is no text but the value that every object has under the name in `scope`
  pub scope_inherited : Bool
  pub subject : Text

-- The properties of `Object.prototype`, whose values are functions and objects.
abbrev pub inherited_properties : List Text
inherited_properties =
    codes "constructor"
    ∷ codes "__proto__"
    ∷ codes "toString"
    ∷ codes "toLocaleString"
    ∷ codes "valueOf"
    ∷ codes "hasOwnProperty"
    ∷ codes "isPrototypeOf"
    ∷ codes "propertyIsEnumerable"
    ∷ codes "__defineGetter__"
    ∷ codes "__defineSetter__"
    ∷ codes "__lookupGetter__"
    ∷ codes "__lookupSetter__"
    ∷ []

abbrev pub feature_types : List Text
feature_types = codes "feat" ∷ codes "feature" ∷ []

abbrev pub fix_types : List Text
fix_types = codes "fix" ∷ codes "hotfix" ∷ []

abbrev pub improvement_types : List Text
improvement_types = codes "refactor" ∷ codes "perf" ∷ codes "improvement" ∷ []

abbrev pub skip_types : List Text
skip_types =
    codes "chore"
    ∷ codes "ci"
    ∷ codes "build"
    ∷ codes "test"
    ∷ codes "style"
    ∷ codes "bump"
    ∷ codes "debug"
    ∷ codes "docs"
    ∷ codes "documentation"
    ∷ []

abbrev pub scope_aliases : List (Text × Text)
scope_aliases = (codes "pair", codes "pairing") ∷ []

abbrev pub lower_scope : (Text → Text) → Option Text → Option Text
lower_scope lower none = none
lower_scope lower (some scope) = some (lower scope)

abbrev pub commit_of : (Text → Text) → Text → Option Conventional → Commit
commit_of lower subject none = record {
  type = codes "other";
  scope = none;
  scope_inherited = false;
  subject = subject;
}
commit_of lower subject (some match) = record {
  type = map fold_case match.type;
  scope = lower_scope lower match.scope;
  scope_inherited = false;
  subject = trim match.subject;
}

-- The type has ASCII letters only, whose lower case is theirs in any language.
unfoldable pub parse_commit : (Text → Text) → Text → Commit
unfolding match_conventional trim
parse_commit lower subject = commit_of lower subject (match_conventional subject)

-- What the table gives for a scope, or the scope, and whether that is an inherited value.
abbrev pub aliased : Text → Option Text → Option Text × Bool
aliased scope (some alias) = (some alias, false)
aliased scope none = (some scope, contains scope inherited_properties)

unfoldable pub normalize_scope : Option Text → Option Text × Bool
unfolding get contains
normalize_scope none = (none, false)
normalize_scope (some []) = (none, false)
normalize_scope (some (c ∷ s)) = aliased (c ∷ s) (get (c ∷ s) scope_aliases)

-- `none` is `null`, which the caller filters out.
unfoldable pub normalize_commit : Commit → Option Commit
unfolding normalize_scope is_prototype has_pairing_keyword
normalize_commit commit =
    let scope = normalize_scope commit.scope in
    if is_prototype commit.subject
    then none
    else if not (is_truthy scope.0)
        && contains commit.type feature_types
        && has_pairing_keyword commit.subject
    then some (record commit { scope = some (codes "pairing"); scope_inherited = false })
    else some (record commit { scope = scope.0; scope_inherited = scope.1 })

abbrev pub is_loaded : Commit → Bool
is_loaded commit = not (contains commit.type skip_types)

abbrev pub cons_some {ℓ} : {A : Type ℓ} → Option A → List A → List A
cons_some none xs = xs
cons_some (some x) xs = x ∷ xs

-- `.map(normalizeCommit).filter(Boolean)`
unfoldable pub normalize_commits : List Commit → List Commit
unfolding normalize_commit
normalize_commits [] = []
normalize_commits (commit ∷ commits) =
    cons_some (normalize_commit commit) (normalize_commits commits)

-- What `loadCommits` makes of the output of git, trimmed.
unfoldable pub load_commits : (Text → Text) → Text → List Commit
unfolding split non_empty parse_commit normalize_commits
load_commits lower [] = []
load_commits lower (c ∷ raw) =
    normalize_commits (filter is_loaded (map (parse_commit lower) (non_empty (split 10 (c ∷ raw)))))
