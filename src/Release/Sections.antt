-- ===== src/Release/Sections.antt =====
-- scripts/generate-release-notes.js: the commits of a scope in one line, the sections of the notes, and
-- the highlights. `toLowerCase` and `toUpperCase` are parameters.
use Prim.Native.Nat.{compare, Ordering}
use alt_sendme.Prelude.{
  ℕ, suc, ◌-◌, Bool, not, ◌&&◌, Text, codes, text_eq, Option, none, some, List, [], ◌∷◌, ◌++◌, map,
  filter, take, length, get_or, join, is_truthy, is_some, contains, add, get, or_else, ◌==◌, ltb,
  if◌then◌else◌, decimal_on,
}
use alt_sendme.Sorting.{sort}
use alt_sendme.Release.Commits.{Commit}
use alt_sendme.Release.Grouping.{push_all}

-- A number in a template.
abbrev pub decimal : ℕ → Text
decimal n = decimal_on (suc n) n []

-- The first unit in upper case.
abbrev pub capitalize : (Text → Text) → Text → Text
capitalize upper [] = []
capitalize upper (c ∷ s) = upper (c ∷ []) ++ s

abbrev pub space_of : ℕ → ℕ
space_of c = if c == b'-' then 32 else c

abbrev pub label_of : Text → Text
label_of scope =
    if text_eq scope (codes "ui")
    then codes "UI"
    else if text_eq scope (codes "dpi")
    then codes "DPI"
    else map space_of scope

unfoldable pub format_scope_label : Option Text → Option Text
unfolding text_eq
format_scope_label none = none
format_scope_label (some []) = none
format_scope_label (some (c ∷ s)) = some (label_of (c ∷ s))

abbrev pub bullet : Text → Text
bullet text = codes "- " ++ text

abbrev pub general : Text
general = codes "_general"

-- A commit with the key of its group.
abbrev pub keyed : Commit → Text × Commit
keyed commit = (or_else commit.scope general, commit)

unfoldable pub group_by_scope : List Commit → List (Text × List Commit)
unfolding push_all
group_by_scope commits = push_all [] (map keyed commits)

abbrev pub type_priority : List (Text × ℕ)
type_priority =
    (codes "feat", 0)
    ∷ (codes "feature", 0)
    ∷ (codes "fix", 1)
    ∷ (codes "hotfix", 1)
    ∷ (codes "perf", 2)
    ∷ (codes "refactor", 3)
    ∷ (codes "improvement", 3)
    ∷ (codes "other", 4)
    ∷ []

abbrev pub priority : Commit → ℕ
priority commit = or_else (get commit.type type_priority) 4

-- The comparison of `pickRepresentativeSubjects`.
unfoldable pub by_priority : Commit → Commit → Ordering
unfolding get
by_priority a b =
    if priority a == priority b
    then compare (length b.subject) (length a.subject)
    else compare (priority a) (priority b)

-- What follows the bullet's subjects.
abbrev pub more : ℕ → Text
more extra = if ltb 0 extra then codes " (+" ++ decimal extra ++ codes " more)" else []

-- `subjects[0]` in a template
abbrev pub subject_at : ℕ → List Text → Text
subject_at i subjects = get_or subjects i (codes "undefined")

-- The text where the group has no label.
abbrev pub plain_summary : List Text → ℕ → Text
plain_summary subjects extra =
    if length subjects == 1 && extra == 0
    then subject_at 0 subjects
    else if length subjects == 1
    then subject_at 0 subjects ++ codes " (+" ++ decimal extra ++ codes " related changes)"
    else join (codes "; ") subjects ++ more extra

-- The text where it has one.
abbrev pub labelled_summary : (Text → Text) → Text → List Text → ℕ → Text
labelled_summary upper label subjects extra =
    codes "**"
    ++ capitalize upper label
    ++ codes "** — "
    ++ subject_at 0 subjects
    ++ (if ltb 1 (length subjects) then codes "; " ++ subject_at 1 subjects else [])
    ++ more extra

-- `scope === '_general' ? null : scope`
abbrev pub scope_key : Text → Option Text
scope_key scope = if text_eq scope general then none else some scope

abbrev pub summary_of : (Text → Text) → Option Text → List Text → ℕ → Text
summary_of upper label subjects extra =
    if is_truthy label
    then labelled_summary upper (or_else label []) subjects extra
    else plain_summary subjects extra

-- An entry of `highlights`
pub record Highlight : Type 0 where
  pub scope : Text
  pub weight : ℕ
  pub text : Text

abbrev pub by_weight : Highlight → Highlight → Ordering
by_weight a b = compare b.weight a.weight

-- Whether the loop of `pickHighlights` does not skip the group.
abbrev pub is_shown : Bool → Bool → Text × List Commit → Bool
is_shown has_device has_pairing group =
    not (text_eq group.0 (codes "identity") && has_device)
    && not (text_eq group.0 (codes "pair") && has_pairing)

module _ (lower : Text → Text) where
  -- The loop of `uniqueSubjects` from a set of seen subjects on.
  unfoldable pub unique_from : List Text → List Commit → List Commit
  unfolding contains add
  unique_from seen [] = []
  unique_from seen (commit ∷ commits) =
      let key = lower commit.subject in
      let skipping = unique_from seen commits in
      let adding = unique_from (add key seen) commits in
      if contains key seen then skipping else commit ∷ adding

  unfoldable pub unique_subjects : List Commit → List Commit
  unfolding unique_from
  unique_subjects commits = unique_from [] commits

module _ (lower upper : Text → Text) where
  unfoldable pub pick_representative_subjects : List Commit → ℕ → List Text
  unfolding unique_subjects by_priority
  pick_representative_subjects commits limit =
      map (λ commit. capitalize upper commit.subject)
        (take limit (sort by_priority (unique_subjects lower commits)))

  unfoldable pub summarize_scope_commits : Text → List Commit → Text
  unfolding unique_subjects pick_representative_subjects format_scope_label text_eq
  summarize_scope_commits scope commits =
      let normalized = unique_subjects lower commits in
      let subjects = pick_representative_subjects normalized 2 in
      summary_of upper (format_scope_label (scope_key scope)) subjects
        (length normalized - length subjects)

  abbrev pub summary_line : Text × List Commit → Text
  summary_line group = bullet (summarize_scope_commits group.0 group.1)

  unfoldable pub render_section : Text → List Commit → List Text
  unfolding group_by_scope summarize_scope_commits
  render_section title [] = []
  render_section title (commit ∷ commits) =
      (codes "## " ++ title) ∷ [] ∷ map summary_line (group_by_scope (commit ∷ commits)) ++ [] ∷ []

  abbrev pub highlight_of : Text × List Commit → Highlight
  highlight_of group = record {
    scope = group.0;
    weight = length group.1;
    text = summarize_scope_commits group.0 group.1;
  }

  -- The entries that the loop of `pickHighlights` pushes.
  unfoldable pub highlights_of : List (Text × List Commit) → List Highlight
  unfolding get text_eq summarize_scope_commits
  highlights_of groups = map highlight_of (
      filter
        (is_shown (is_some (get (codes "device") groups)) (is_some (get (codes "pairing") groups)))
        groups)

  unfoldable pub pick_highlights : List Commit → List Text
  unfolding group_by_scope highlights_of
  pick_highlights commits =
      map (λ entry. entry.text) (take 6 (sort by_weight (highlights_of (group_by_scope commits))))
