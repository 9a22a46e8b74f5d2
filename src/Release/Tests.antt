-- ===== src/Release/Tests.antt =====
-- Runs of scripts/generate-release-notes.js on small inputs.
use alt_sendme.Prelude.{
  ◌-◌, false, ◌≡◌, refl, Text, codes, text_eq, none, some, List, [], ◌∷◌, ◌++◌, map, filter, length,
  join, contains, get, or_else, split, non_empty, trim, All, add, put, is_space, trim_start,
  if◌then◌else◌,
}
use alt_sendme.Release.Commits.{
  Commit, parse_commit, normalize_scope, normalize_commit, normalize_commits, load_commits,
}
use alt_sendme.Release.Patterns.{
  take_while, drop_while, after, after_any_case, after_some, has_pairing_from, has_pairing_keyword,
  is_prototype, is_release_title, is_skipped_title, scope_group, subject_group, behind_scope,
  match_conventional,
}
use alt_sendme.Release.Lines.{starts_with, dashed, first_by, title_of, user_of, noreply_user}
use alt_sendme.Release.Grouping.{Distinct, push_all, push_to}
use alt_sendme.Release.Sections.{
  more, format_scope_label, scope_key, group_by_scope, unique_subjects,
  pick_representative_subjects, summarize_scope_commits, highlights_of, pick_highlights,
  unique_from, by_priority, render_section,
}
use alt_sendme.Release.Contributors.{
  author_of, load_commit_authors, collect_contributors, credited_entries, credit_commits,
  credit_commit, credit_lines, resolve_github_login, author_has_prior_contributions, is_prior_line,
}
use alt_sendme.Release.Work.{
  Authored, build_contributor_credit, describe_contributor_work, add_area,
}
use alt_sendme.Release.Notes.{
  Git, shows_inherited, build_release_notes, extract_github_sections, generate, has_type,
  get_previous_tag, get_commit_range, notes_lines, render_contributor_sections, scan_lines,
  scan_line, scan_item,
}
use alt_sendme.Release.Partition.{IsGroup, is_of_scope, keys, group_by_scope-IsGroup}
use alt_sendme.Release.Summaries.{
  heading, unique_subjects-Distinct, summarize_scope_commits-uniform,
}
use alt_sendme.Release.Loaded.{load_commits-Normal}
use alt_sendme.Release.Inherited.{inherited_scope_breaks_notes}
use alt_sendme.Release.Normalized.{Normal}
use alt_sendme.Release.Scanned.{is_listed_item, is_item, extract_github_sections-parts}
use alt_sendme.Release.Credited.{Outcome, collect_contributors-Collected}
use alt_sendme.Release.LoadTests.{lower, upper, by_length, lines, log, commit}

abbrev git : Git
git = record {
  tags = lines (codes "v2" ∷ codes "v1" ∷ []);
  subjects = λ range. if text_eq range (codes "v1..HEAD") then log else [];
  authors = λ range. codes "Ann|1+ann@users.noreply.github.com|feat: pair by code";
  history = λ tag. some (codes "Ann|ann@example.org");
}

notes :
    generate lower upper by_length git (codes "v2") none (codes "o/r") none
    ≡ some (
        lines (
          codes "## Release highlights"
          ∷ []
          ∷ codes "- **Pairing** — Pair by code; Rename"
          ∷ codes "- **UI** — Dark mode"
          ∷ []
          ∷ codes "## Bug fixes"
          ∷ []
          ∷ codes "- **UI** — Dark Mode"
          ∷ []
          ∷ codes "Thanking @ann for new features."
          ∷ []
          ∷ codes "**Full Changelog**: https://github.com/o/r/compare/v1...v2"
          ∷ []
          ∷ codes "---"
          ∷ []
          ∷ codes "See the assets below to download and install this version."
          ∷ []
          ∷ []))
unfolding generate get_previous_tag get_commit_range build_release_notes notes_lines has_type
    shows_inherited extract_github_sections pick_highlights highlights_of render_section
    render_contributor_sections group_by_scope push_all push_to summarize_scope_commits
    unique_subjects unique_from pick_representative_subjects by_priority format_scope_label
    build_contributor_credit collect_contributors credited_entries credit_commits credit_commit
    credit_lines resolve_github_login author_has_prior_contributions is_prior_line
    describe_contributor_work add_area add put load_commit_authors author_of noreply_user user_of
    after_some load_commits split non_empty parse_commit normalize_commits normalize_commit
    normalize_scope is_prototype has_pairing_keyword has_pairing_from match_conventional take_while
    drop_while scope_group subject_group behind_scope after after_any_case trim trim_start is_space
    contains get text_eq
notes = refl

abbrev body : Text
body = lines (
    codes "* Fast copy by @ann in #1"
    ∷ codes "* chore: tidy by @bob in #2"
    ∷ codes "## New Contributors"
    ∷ codes "* @ann made their first contribution"
    ∷ codes "## Thanks"
    ∷ codes "* Icons by @cy in #3"
    ∷ [])

body_parts :
    split 10 body
    ≡ (codes "* Fast copy by @ann in #1" ∷ codes "* chore: tidy by @bob in #2" ∷ [])
      ++ codes "## New Contributors"
        ∷ ((codes "* @ann made their first contribution" ∷ [])
            ++ codes "## Thanks" ∷ codes "* Icons by @cy in #3" ∷ [])
unfolding split
body_parts = refl

extracted : extract_github_sections (some body) ≡ record {
  pr_lines = codes "- Fast copy by @ann in #1" ∷ codes "- Icons by @cy in #3" ∷ [];
  contributors = codes "* @ann made their first contribution" ∷ [];
  in_contributors = false;
}
unfolding extract_github_sections scan_lines scan_line scan_item split starts_with dashed title_of
    first_by is_release_title is_skipped_title after after_any_case after_some take_while drop_while
    is_space
extracted = refl

abbrev features : List Commit
features =
    commit (codes "feat") (some (codes "ui")) (codes "dark mode")
    ∷ commit (codes "feat") none (codes "undo")
    ∷ commit (codes "fix") (some (codes "ui")) (codes "Dark Mode")
    ∷ []

group_by_scope-IsGroup_example :
    Distinct (keys (group_by_scope features))
    × All (IsGroup features) (group_by_scope features)
    × ((scope : Text)
        → or_else (get scope (group_by_scope features)) [] ≡ filter (is_of_scope scope) features)
group_by_scope-IsGroup_example = group_by_scope-IsGroup features

unique_subjects-Distinct_example :
    Distinct (map (λ (c : Commit). lower c.subject) (unique_subjects lower features))
    × ((key : Text)
        → contains key (map (λ (c : Commit). lower c.subject) (unique_subjects lower features))
          ≡ contains key (map (λ (c : Commit). lower c.subject) features))
    × (unique_subjects lower (unique_subjects lower features) ≡ unique_subjects lower features)
unique_subjects-Distinct_example = unique_subjects-Distinct lower features

abbrev first_feature : Commit
first_feature = commit (codes "feat") (some (codes "ui")) (codes "dark mode")

summarize_scope_commits-uniform_example :
    summarize_scope_commits lower upper (codes "ui") (first_feature ∷ features)
    ≡ heading upper (format_scope_label (scope_key (codes "ui")))
      ++ join (codes "; ") (
          pick_representative_subjects lower upper
            (unique_subjects lower (first_feature ∷ features))
            2)
      ++ more (length (unique_subjects lower (first_feature ∷ features)) - 2)
summarize_scope_commits-uniform_example =
    summarize_scope_commits-uniform lower upper (codes "ui") first_feature features

load_commits-Normal_example :
    All Normal (load_commits lower log)
    × ((types : List Text)
        → All
            (λ group. text_eq group.0 (codes "pair") ≡ false)
            (group_by_scope (filter (has_type types) (load_commits lower log))))
load_commits-Normal_example = load_commits-Normal lower log

abbrev inherited_log : Text
inherited_log = lines (codes "feat: undo" ∷ codes "fix(constructor): tidy" ∷ [])

inherited_scope_breaks_notes_example :
    build_release_notes lower upper by_length
      (codes "v2")
      (codes "v1")
      (codes "o/r")
      (some body)
      (load_commits lower inherited_log)
      []
      none
    ≡ none
unfolding split non_empty parse_commit is_prototype match_conventional take_while drop_while
    scope_group subject_group behind_scope after after_any_case trim trim_start is_space contains
    text_eq
inherited_scope_breaks_notes_example =
    inherited_scope_breaks_notes lower upper by_length (codes "v2") (codes "v1") (codes "o/r")
      (some body) inherited_log [] none refl

extract_github_sections-parts_example : extract_github_sections (some body) ≡ record {
  pr_lines =
      map dashed (
        filter is_listed_item
          (codes "* Fast copy by @ann in #1" ∷ codes "* chore: tidy by @bob in #2" ∷ []))
      ++ map dashed (filter is_listed_item (codes "* Icons by @cy in #3" ∷ []));
  contributors = filter is_item (codes "* @ann made their first contribution" ∷ []);
  in_contributors = false;
}
unfolding starts_with after
extract_github_sections-parts_example =
    extract_github_sections-parts body
      (codes "* Fast copy by @ann in #1" ∷ codes "* chore: tidy by @bob in #2" ∷ [])
      (codes "## New Contributors") (codes "* @ann made their first contribution" ∷ [])
      (codes "## Thanks") (codes "* Icons by @cy in #3" ∷ []) body_parts (refl, (refl, tt)) refl
      (refl, tt) refl refl (refl, tt)

abbrev author_lines : Text
author_lines = lines (
    codes "Ann|1+ann@users.noreply.github.com|fix: a" ∷ codes "O|o@users.noreply.github.com|b" ∷ [])

abbrev authors : List Authored
authors =
    record {
      name = codes "Ann";
      email = codes "1+ann@users.noreply.github.com";
      commit = commit (codes "fix") none (codes "a");
    }
    ∷ record {
      name = codes "O";
      email = codes "o@users.noreply.github.com";
      commit = commit (codes "other") none (codes "b");
    }
    ∷ []

authors_loaded : load_commit_authors lower author_lines ≡ some authors
unfolding load_commit_authors author_of split non_empty parse_commit match_conventional take_while
    drop_while scope_group subject_group behind_scope after trim trim_start is_space
authors_loaded = refl

collect_contributors-Collected_example :
    Outcome lower (codes "o/r") (some body) authors (
      collect_contributors lower by_length author_lines (codes "v1") none (codes "o/r") (some body))
collect_contributors-Collected_example =
    collect_contributors-Collected lower by_length author_lines (codes "v1") none (codes "o/r")
      (some body) authors authors_loaded
