-- ===== src/Release/Summaries.antt =====
-- scripts/generate-release-notes.js: what `uniqueSubjects` keeps, and the one form that all branches of
-- `summarizeScopeCommits` give.
use mathlib.Core.Path.{◌∙◌}
use alt_sendme.Prelude.{
  ℕ, ◌-◌, ◌<◌, false, ◌≡◌, refl, ap, Text, codes, Option, none, some, List, [], ◌∷◌, ◌++◌, map,
  take, length, join, contains, add, if◌then◌else◌, arith, length-map, append_assoc, append-nil,
  text_eq_iff, text_eq_refl, if_elim, ltb, ◌&&◌, not,
}
use alt_sendme.Sorting.{sort, length-sort}
use alt_sendme.Release.Commits.{Commit}
use alt_sendme.Release.Grouping.{Distinct, contains-add}
use alt_sendme.Release.Sections.{
  capitalize, format_scope_label, scope_key, more, summary_of, plain_summary, labelled_summary,
  by_priority, unique_from, unique_subjects, pick_representative_subjects, summarize_scope_commits,
}

-- Where a summary has a label, the start that shows it.
abbrev pub heading : (Text → Text) → Option Text → Text
heading upper none = []
heading upper (some []) = []
heading upper (some (c ∷ s)) = codes "**" ++ capitalize upper (c ∷ s) ++ codes "** — "

-- At most two.
abbrev up_to_two : ℕ → ℕ
up_to_two n = if ltb n 2 then n else 2

length-take_two : {A : Type 0} (xs : List A) → length (take 2 xs) ≡ up_to_two (length xs)
length-take_two [] = refl
length-take_two (x ∷ []) = refl
length-take_two (x ∷ y ∷ xs) = ground arith

plain-uniform :
    (subjects : List Text) (n : ℕ)
    → length subjects ≡ up_to_two n
    → 0 < n
    → plain_summary subjects (n - length subjects) ≡ join (codes "; ") subjects ++ more (n - 2)
plain-uniform [] n e h = ground arith
plain-uniform (a ∷ []) n e h = ground (arith, append-nil a)
plain-uniform (a ∷ b ∷ []) n e h = ground arith
plain-uniform (a ∷ b ∷ c ∷ ss) n e h = ground arith

labelled-uniform :
    (upper : Text → Text) (label : Text) (subjects : List Text) (n : ℕ)
    → length subjects ≡ up_to_two n
    → 0 < n
    → labelled_summary upper label subjects (n - length subjects)
      ≡ (codes "**" ++ capitalize upper label ++ codes "** — ")
        ++ join (codes "; ") subjects
        ++ more (n - 2)
labelled-uniform upper label [] n e h = ground arith
labelled-uniform upper label (a ∷ []) n e h =
    let start = codes "**" ++ capitalize upper label ++ codes "** — " in
    ground (arith, append-nil (start ++ a))
labelled-uniform upper label (a ∷ b ∷ []) n e h =
    let start = codes "**" ++ capitalize upper label ++ codes "** — " in
    ground (arith, append_assoc start a (codes "; " ++ b), append_assoc a (codes "; ") b)
labelled-uniform upper label (a ∷ b ∷ c ∷ ss) n e h = ground arith

summary_of-uniform :
    (upper : Text → Text) (label : Option Text) (subjects : List Text) (n : ℕ)
    → length subjects ≡ up_to_two n
    → 0 < n
    → summary_of upper label subjects (n - length subjects)
      ≡ heading upper label ++ join (codes "; ") subjects ++ more (n - 2)
summary_of-uniform upper none subjects n e h = plain-uniform subjects n e h
summary_of-uniform upper (some []) subjects n e h = plain-uniform subjects n e h
summary_of-uniform upper (some (c ∷ l)) subjects n e h =
    labelled-uniform upper (c ∷ l) subjects n e h

module _ (lower : Text → Text) where
  unique_from-twice :
      (seen : List Text) (commits : List Commit)
      → unique_from lower seen (unique_from lower seen commits) ≡ unique_from lower seen commits
  unfolding unique_from
  unique_from-twice seen [] = refl
  unique_from-twice seen (c ∷ commits) = ground (
    arith,
    unique_from-twice seen commits,
    unique_from-twice (add (lower c.subject) seen) commits,
  )

  abbrev keys : List Commit → List Text
  keys commits = map (λ (commit : Commit). lower commit.subject) commits

  -- What is kept behind a set of subjects: none of it, none twice, and the rest.
  unique_from-outside :
      (seen : List Text) (commits : List Commit) (key : Text)
      → contains key (keys (unique_from lower seen commits))
        ≡ (contains key (keys commits) && not (contains key seen))
  unfolding unique_from contains
  unique_from-outside seen [] key = ground arith
  unique_from-outside seen (c ∷ commits) key = ground (
    arith,
    unique_from-outside seen commits key,
    unique_from-outside (add (lower c.subject) seen) commits key,
    contains-add key (lower c.subject) seen,
    text_eq_iff (lower c.subject) key,
  )

  unique_from-Distinct :
      (seen : List Text) (commits : List Commit) → Distinct (keys (unique_from lower seen commits))
  unfolding unique_from Distinct
  unique_from-Distinct seen [] = tt
  unique_from-Distinct seen (c ∷ commits) =
      let key : Text = lower c.subject in
      let rest : List Commit = unique_from lower (add key seen) commits in
      let fresh : contains key (keys rest) ≡ false = ground (
        arith,
        unique_from-outside (add key seen) commits key,
        contains-add key key seen,
        text_eq_refl key,
      ) in
      if_elim (λ kept. Distinct (keys kept)) (contains key seen) (unique_from lower seen commits)
        (c ∷ rest) (λ e. unique_from-Distinct seen commits)
        (λ e. (fresh, unique_from-Distinct (add key seen) commits))

  unique_subjects-nonempty :
      (c : Commit) (commits : List Commit) → 0 < length (unique_subjects lower (c ∷ commits))
  unfolding unique_subjects unique_from contains
  unique_subjects-nonempty c commits = ground arith

  -- Of commits with one subject, up to case, the first is kept: no two that are kept have the same,
  -- each subject is kept, and to do it again keeps all.
  pub unique_subjects-Distinct :
      (commits : List Commit)
      → Distinct (keys (unique_subjects lower commits))
        × ((key : Text)
            → contains key (keys (unique_subjects lower commits)) ≡ contains key (keys commits))
        × (unique_subjects lower (unique_subjects lower commits) ≡ unique_subjects lower commits)
  unfolding unique_subjects contains
  unique_subjects-Distinct commits = (
    unique_from-Distinct [] commits,
    λ key. ground (arith, unique_from-outside [] commits key),
    unique_from-twice [] commits,
  )

module _ (lower upper : Text → Text) where
  length-pick :
      (commits : List Commit)
      → length (pick_representative_subjects lower upper (unique_subjects lower commits) 2)
        ≡ up_to_two (length (unique_subjects lower commits))
  unfolding pick_representative_subjects
  length-pick commits =
      let kept : List Commit = unique_subjects lower commits in
      length-map (λ commit. capitalize upper commit.subject)
        (take 2 (sort by_priority (unique_subjects lower kept)))
      ∙ length-take_two (sort by_priority (unique_subjects lower kept))
      ∙ ap up_to_two (
          length-sort by_priority (unique_subjects lower kept)
          ∙ ap length (unique_subjects-Distinct lower commits).2)

  -- The line of a group, of one commit at least, is its label, if any, the one or two subjects that are
  -- picked, and how many other different subjects there are, if any, by whichever branch it is made.
  pub summarize_scope_commits-uniform :
      (scope : Text) (c : Commit) (commits : List Commit)
      → summarize_scope_commits lower upper scope (c ∷ commits)
        ≡ heading upper (format_scope_label (scope_key scope))
          ++ join
              (codes "; ")
              (pick_representative_subjects lower upper (unique_subjects lower (c ∷ commits)) 2)
          ++ more (length (unique_subjects lower (c ∷ commits)) - 2)
  unfolding summarize_scope_commits
  summarize_scope_commits-uniform scope c commits =
      summary_of-uniform upper (format_scope_label (scope_key scope))
        (pick_representative_subjects lower upper (unique_subjects lower (c ∷ commits)) 2)
        (length (unique_subjects lower (c ∷ commits))) (length-pick (c ∷ commits))
        (unique_subjects-nonempty lower c commits)
