-- ===== src/Release/Work.antt =====
-- scripts/generate-release-notes.js: the contributors, what they worked on, and the line that thanks them.
use alt_sendme.Prelude.{
  ◌-◌, Bool, ◌||◌, Text, codes, text_eq, Option, none, some, List, [], ◌∷◌, ◌++◌, map, take, length,
  last_or, join, is_truthy, contains, add, or_else, if◌then◌else◌,
}
use alt_sendme.Release.Commits.{Commit, feature_types, fix_types}
use alt_sendme.Release.Patterns.{includes_any_case}
use alt_sendme.Release.Sections.{format_scope_label}

pub record Authored : Type 0 where
  pub name : Text
  pub email : Text
  pub commit : Commit

abbrev pub author_login_aliases : List (Text × Text)
author_login_aliases =
    (codes "noordeen", codes "noordeen123")
    ∷ (codes "ananthakrishnan", codes "ananthan199601")
    ∷ (codes "retengart", codes "Retengart")
    ∷ (codes "rubén", codes "Rubensei")
    ∷ (codes "ruben", codes "Rubensei")
    ∷ []

-- An element of `all`
pub record Contributor : Type 0 where
  pub login : Text
  pub work : Text
  pub is_new : Bool

pub record ContributorData : Type 0 where
  pub all : List Contributor
  pub new_contributors : List Contributor

-- `formatScopeLabel(scope)` in a template
abbrev pub shown_label : Option Text → Text
shown_label scope = or_else (format_scope_label scope) (codes "null")

abbrev pub area : Option Text → Text → Text → Text
area scope suffix otherwise = if is_truthy scope then shown_label scope ++ suffix else otherwise

abbrev pub is_test : Commit → Bool
is_test commit =
    includes_any_case (codes "test") commit.subject
    || includes_any_case (codes "e2e") commit.subject
    || includes_any_case (codes "coverage") commit.subject
    || text_eq commit.type (codes "test")

-- The set of areas with that of a commit.
unfoldable pub add_area : List Text → Commit → List Text
unfolding contains add includes_any_case format_scope_label
add_area areas commit =
    if contains commit.type fix_types
    then add (area commit.scope (codes " fixes") (codes "bug fixes")) areas
    else if contains commit.type feature_types
    then add (area commit.scope (codes " features") (codes "new features")) areas
    else if is_test commit
    then add (codes "test coverage") areas
    else if is_truthy commit.scope
    then add (shown_label commit.scope ++ codes " improvements") areas
    else areas

abbrev pub areas_of : List Text → List Commit → List Text
areas_of areas [] = areas
areas_of areas (commit ∷ commits) = areas_of (add_area areas commit) commits

-- `text || otherwise`
abbrev pub or_text : Text → Text → Text
or_text [] otherwise = otherwise
or_text (c ∷ s) otherwise = c ∷ s

unfoldable pub describe_contributor_work : List Commit → Text
unfolding add_area
describe_contributor_work commits =
    or_text (join (codes " and ") (take 2 (areas_of [] commits))) (codes "their contributions")

abbrev pub credit_part : Contributor → Text
credit_part contributor = codes "@" ++ contributor.login ++ codes " for " ++ contributor.work

unfoldable pub build_contributor_credit : List Contributor → Option Text
build_contributor_credit [] = none
build_contributor_credit (c ∷ []) = some (codes "Thanking " ++ credit_part c ++ codes ".")
build_contributor_credit (c ∷ d ∷ cs) =
    let parts = map credit_part (c ∷ d ∷ cs) in
    some (
      codes "Thanking "
      ++ join (codes ", ") (take (length parts - 1) parts)
      ++ codes " and "
      ++ last_or parts []
      ++ codes ".")
