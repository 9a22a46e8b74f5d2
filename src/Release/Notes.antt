-- ===== src/Release/Notes.antt =====
-- scripts/generate-release-notes.js: the sections of GitHub's notes, and the whole notes.
use Prim.Native.Nat.{Ordering}
use alt_sendme.Prelude.{
  Bool, true, false, not, ◌&&◌, ◌||◌, Text, codes, text_eq, Option, none, some, List, [], ◌∷◌, ◌++◌,
  map, filter, any, length, join, split, non_empty, trim, contains, or_else, leb, if◌then◌else◌,
  ◌>>=◌,
}
use alt_sendme.Release.Commits.{Commit, feature_types, fix_types, improvement_types, load_commits}
use alt_sendme.Release.Contributors.{collect_contributors}
use alt_sendme.Release.Work.{Contributor, ContributorData, build_contributor_credit}
use alt_sendme.Release.Lines.{starts_with, dashed, title_of, mentioned_login}
use alt_sendme.Release.Patterns.{is_release_title, is_skipped_title}
use alt_sendme.Release.Sections.{decimal, bullet, group_by_scope, render_section, pick_highlights}

-- The variables of the loop of `extractGithubSections`.
pub record GithubSections : Type 0 where
  pub pr_lines : List Text
  pub contributors : List Text
  pub in_contributors : Bool

abbrev pub is_unlisted : Text → Bool
is_unlisted line =
    let title = or_else (title_of line) [] in is_release_title title || is_skipped_title title

abbrev pub add_pr_line : GithubSections → Text → GithubSections
add_pr_line s line = record {
  pr_lines = s.pr_lines ++ dashed line ∷ [];
  contributors = s.contributors;
  in_contributors = s.in_contributors;
}

abbrev pub add_contributor_line : GithubSections → Text → GithubSections
add_contributor_line s line = record {
  pr_lines = s.pr_lines;
  contributors = s.contributors ++ line ∷ [];
  in_contributors = s.in_contributors;
}

abbrev pub set_in_contributors : Bool → GithubSections → GithubSections
set_in_contributors b s = record {
  pr_lines = s.pr_lines;
  contributors = s.contributors;
  in_contributors = b;
}

-- What a line adds behind the tests of the headings.
unfoldable pub scan_item : GithubSections → Text → GithubSections
unfolding starts_with title_of is_release_title is_skipped_title dashed
scan_item s line =
    if starts_with (codes "**Full Changelog**") line || not (starts_with (codes "* ") line)
    then s
    else if s.in_contributors
    then add_contributor_line s line
    else if is_unlisted line
    then s
    else add_pr_line s line

unfoldable pub scan_line : GithubSections → Text → GithubSections
unfolding starts_with scan_item
scan_line s line =
    if starts_with (codes "## New Contributors") line
    then set_in_contributors true s
    else scan_item
        (set_in_contributors (s.in_contributors && not (starts_with (codes "## ") line)) s) line

unfoldable pub scan_lines : GithubSections → List Text → GithubSections
unfolding scan_line
scan_lines s [] = s
scan_lines s (line ∷ lines) = scan_lines (scan_line s line) lines

abbrev pub no_sections : GithubSections
no_sections = record { pr_lines = []; contributors = []; in_contributors = false }

unfoldable pub extract_github_sections : Option Text → GithubSections
unfolding split scan_lines
extract_github_sections none = no_sections
extract_github_sections (some []) = no_sections
extract_github_sections (some (c ∷ body)) = scan_lines no_sections (split 10 (c ∷ body))

-- A heading, lines and an empty line, or nothing where there are no lines.
abbrev pub section_of : Text → List Text → List Text
section_of title [] = []
section_of title (line ∷ lines) = title ∷ [] ∷ (line ∷ lines) ++ [] ∷ []

abbrev pub thanks_lines : Option Text → List Text
thanks_lines none = []
thanks_lines (some thanks) = thanks ∷ [] ∷ []

abbrev pub first_contribution : Contributor → Text
first_contribution contributor =
    codes "- @" ++ contributor.login ++ codes " made their first contribution in this release"

unfoldable pub render_contributor_sections : ContributorData → List Text → List Text
unfolding mentioned_login contains dashed build_contributor_credit
render_contributor_sections contributor_data github_new =
    let seen = map (λ line. or_else (mentioned_login line) []) github_new in
    let derived = filter (λ c. not (contains c.login seen)) contributor_data.new_contributors in
    section_of (codes "## New contributors")
      (map dashed github_new ++ map first_contribution derived)
    ++ thanks_lines (build_contributor_credit contributor_data.all)

unfoldable pub get_commit_range : Text → Text
get_commit_range [] = codes "HEAD"
get_commit_range (c ∷ previous_tag) = (c ∷ previous_tag) ++ codes "..HEAD"

abbrev pub other_tag : Text → List Text → Text
other_tag current_tag [] = []
other_tag current_tag (tag ∷ tags) =
    let rest = other_tag current_tag tags in if text_eq tag current_tag then rest else tag

-- `raw` is what git prints as the tags, the latest first.
unfoldable pub get_previous_tag : Text → Text → Text
unfolding split non_empty text_eq
get_previous_tag raw current_tag = other_tag current_tag (non_empty (split 10 raw))

abbrev pub changelog_lines : Text → Text → Text → List Text
changelog_lines repository [] current_tag = []
changelog_lines repository (c ∷ previous_tag) current_tag =
    (codes "**Full Changelog**: https://github.com/"
      ++ repository
      ++ codes "/compare/"
      ++ (c ∷ previous_tag)
      ++ codes "..."
      ++ current_tag)
    ∷ []
    ∷ []

unfoldable pub has_type : List Text → Commit → Bool
unfolding contains
has_type types commit = contains commit.type types

abbrev pub text_of_lines : List Text → Text
text_of_lines lines = trim (join (10 ∷ []) lines) ++ 10 ∷ []

abbrev pub is_inherited_scope : Commit → Bool
is_inherited_scope commit = commit.scope_inherited

-- Whether a scope that is shown is no text, so that `scope.replace` throws. Of more than eight
-- improvements no scope is shown.
unfoldable pub shows_inherited : List Commit → Bool
unfolding has_type
shows_inherited commits =
    let improvements = filter (has_type improvement_types) commits in
    any is_inherited_scope (filter (has_type feature_types) commits)
    || any is_inherited_scope (filter (has_type fix_types) commits)
    || leb (length improvements) 8 && any is_inherited_scope improvements

module _ (lower upper : Text → Text) where
  abbrev pub improvement_lines : List Commit → List Text
  improvement_lines improvements =
      if leb (length improvements) 8
      then render_section lower upper (codes "Improvements") improvements
      else codes "## Improvements"
        ∷ []
        ∷ bullet (
            decimal (length improvements)
            ++ codes " internal improvements across "
            ++ decimal (length (group_by_scope improvements))
            ++ codes " areas")
        ∷ []
        ∷ []

  -- `lines` of `buildReleaseNotes`, with what the contributors' sections render to.
  unfoldable pub notes_lines :
      Text → Text → Text → Option Text → List Commit → ContributorData → List Text
  unfolding has_type extract_github_sections pick_highlights render_section
      render_contributor_sections group_by_scope
  notes_lines current_tag previous_tag repository github_body commits contributor_data =
      let sections = extract_github_sections github_body in
      section_of (codes "## Release highlights")
        (map bullet (pick_highlights lower upper (filter (has_type feature_types) commits)))
      ++ section_of (codes "## What's changed") sections.pr_lines
      ++ render_section lower upper (codes "Bug fixes") (filter (has_type fix_types) commits)
      ++ improvement_lines (filter (has_type improvement_types) commits)
      ++ render_contributor_sections contributor_data sections.contributors
      ++ changelog_lines repository previous_tag current_tag
      ++ codes "---" ∷ [] ∷ codes "See the assets below to download and install this version." ∷ []

  module _ (locale_compare : Text → Text → Ordering) where
    unfoldable pub build_release_notes :
        Text → Text → Text → Option Text → List Commit → Text → Option Text → Option Text
    unfolding collect_contributors notes_lines trim shows_inherited
    build_release_notes current_tag previous_tag repository github_body commits raw_authors
          history =
        if shows_inherited commits then none else do
          contributor_data ←
              collect_contributors lower locale_compare raw_authors previous_tag history repository
                github_body
          some (
              text_of_lines (
                notes_lines current_tag previous_tag repository github_body commits
                  contributor_data))

-- What git prints: the tags, and the commits, authors and history of a range; `none` where it fails.
pub record Git : Type 0 where
  pub tags : Text
  pub subjects : Text → Text
  pub authors : Text → Text
  pub history : Text → Option Text

-- The notes that `main` writes.
unfoldable pub generate :
    (Text → Text)
    → (Text → Text)
    → (Text → Text → Ordering)
    → Git
    → Text
    → Option Text
    → Text
    → Option Text
    → Option Text
unfolding get_previous_tag get_commit_range load_commits build_release_notes
generate lower upper locale_compare git current_tag given_previous repository github_body =
    let previous_tag = or_else given_previous (get_previous_tag git.tags current_tag) in
    let range = get_commit_range previous_tag in
    build_release_notes lower upper locale_compare current_tag previous_tag repository github_body
      (load_commits lower (git.subjects range)) (git.authors range) (git.history previous_tag)

-- What `writeGithubOutput` appends.
unfoldable pub github_output : Text → Text
github_output notes = codes "notes<<EOF" ++ 10 ∷ notes ++ codes "EOF" ++ 10 ∷ []
