-- ===== src/Release/Inherited.antt =====
-- scripts/generate-release-notes.js: scopes that are looked up among what every object inherits.
use Prim.Native.Nat.{Ordering}
use alt_sendme.Prelude.{
  Bool, true, false, not, ◌&&◌, ◌||◌, ◌≡◌, refl, sym, ◌∙◌, Text, codes, Option, none, some, List,
  [], ◌∷◌, map, any, filter, contains, get, split, non_empty, is_truthy, arith, Bool-cases, inl,
  inr, if_elim, text_eq, text_eq_iff,
}
use alt_sendme.Release.Commits.{
  Commit, scope_aliases, inherited_properties, aliased, feature_types, fix_types, skip_types,
  parse_commit, normalize_scope, normalize_commit, normalize_commits, is_loaded, cons_some,
  load_commits,
}
use alt_sendme.Release.Normalized.{is_inherited}
use alt_sendme.Release.Patterns.{is_prototype}
use alt_sendme.Release.Notes.{has_type, is_inherited_scope, shows_inherited, build_release_notes}

-- A feature or a fix, other than the prototype's, whose scope is the name of an inherited property.
abbrev pub breaks_notes : Commit → Bool
breaks_notes commit =
    (contains commit.type feature_types || contains commit.type fix_types)
    && is_inherited commit.scope
    && not (is_prototype commit.subject)

abbrev shown_inherited : Commit → Bool
shown_inherited commit =
    (contains commit.type feature_types || contains commit.type fix_types) && commit.scope_inherited

abbrev shown_if_some : Option Commit → Bool
shown_if_some none = false
shown_if_some (some commit) = shown_inherited commit

any-cons_some :
    (o : Option Commit) (commits : List Commit)
    → any shown_inherited (cons_some o commits) ≡ (shown_if_some o || any shown_inherited commits)
any-cons_some none commits = refl
any-cons_some (some commit) commits = refl

-- Two lists without a common element have none.
not_in_both :
    (t : Text) (xs ys : List Text)
    → any (λ x. contains x ys) xs ≡ false
    → (contains t xs && contains t ys) ≡ false
unfolding contains
not_in_both t [] ys h = refl
not_in_both t (x ∷ xs) ys h = ground (arith, text_eq_iff x t, not_in_both t xs ys)

excluded : (f x s : Bool) → (f || x) ≡ true → (f && s) ≡ false → (x && s) ≡ false → s ≡ false
excluded f x s h k l = ground arith

listed_is_loaded :
    (type : Text)
    → (contains type feature_types || contains type fix_types) ≡ true
    → contains type skip_types ≡ false
unfolding contains text_eq
listed_is_loaded type h =
    excluded (contains type feature_types) (contains type fix_types) (contains type skip_types) h
      (not_in_both type feature_types skip_types refl) (not_in_both type fix_types skip_types refl)

aliased_inherited :
    (scope : Text)
    → contains scope inherited_properties ≡ true
    → aliased scope (get scope scope_aliases) ≡ (some scope, true)
unfolding get contains text_eq
aliased_inherited scope h = ground (
  arith,
  h,
  text_eq_iff (codes "pair") scope,
  not_in_both scope (codes "pair" ∷ []) inherited_properties refl,
)

normalize_scope_inherited :
    (scope : Option Text) → is_inherited scope ≡ true → normalize_scope scope ≡ (scope, true)
unfolding normalize_scope contains text_eq
normalize_scope_inherited none h = ground (arith, h)
normalize_scope_inherited (some []) h = ground (arith, h)
normalize_scope_inherited (some (c ∷ s)) h = aliased_inherited (c ∷ s) h

all_three : (a b c : Bool) → (a && b && not c) ≡ true → (a ≡ true) × (b ≡ true) × (c ≡ false)
all_three a b c h = (ground arith, ground arith, ground arith)

inherited_is_truthy : (scope : Option Text) → is_inherited scope ≡ true → is_truthy scope ≡ true
unfolding contains text_eq
inherited_is_truthy none h = ground (arith, h)
inherited_is_truthy (some []) h = ground (arith, h)
inherited_is_truthy (some (c ∷ s)) h = refl

either :
    (b r s t : Bool)
    → (b || r) ≡ true
    → (b ≡ true → s ≡ true)
    → (r ≡ true → t ≡ true)
    → (s || t) ≡ true
either b r s t h k l = ground (arith, h, k, l)

other_one : (b r t : Bool) → (b || r) ≡ true → b ≡ false → (r ≡ true → t ≡ true) → t ≡ true
other_one b r t h k l = ground (arith, h, k, l)

normalized_breaks :
    (commit : Commit) → breaks_notes commit ≡ true → shown_if_some (normalize_commit commit) ≡ true
unfolding normalize_commit
normalized_breaks commit h =
    let facts = all_three _ (is_inherited commit.scope) (is_prototype commit.subject) h in
    rw
      (
        normalize_scope_inherited commit.scope facts.1,
        facts.2,
        inherited_is_truthy commit.scope facts.1,
        facts.0,
      )
      refl

unloaded_is_harmless : (commit : Commit) → is_loaded commit ≡ false → breaks_notes commit ≡ false
unloaded_is_harmless commit e = elim (Bool-cases (breaks_notes commit)) [
  | inl h ↦
      let facts = all_three _ (is_inherited commit.scope) (is_prototype commit.subject) h in
      let kept = listed_is_loaded commit.type facts.0 in ground (arith, e, kept)
  | inr k ↦ k
]

loaded_breaks :
    (commits : List Commit)
    → any breaks_notes commits ≡ true
    → any shown_inherited (normalize_commits (filter is_loaded commits)) ≡ true
unfolding normalize_commits
loaded_breaks [] h = h
loaded_breaks (c ∷ commits) h =
    if_elim (λ cs. any shown_inherited (normalize_commits cs) ≡ true) (is_loaded c)
      (c ∷ filter is_loaded commits) (filter is_loaded commits)
      (λ e.
        any-cons_some (normalize_commit c) (normalize_commits (filter is_loaded commits))
        ∙ either (breaks_notes c) (any breaks_notes commits) _ _ h (normalized_breaks c)
            (loaded_breaks commits))
      (λ e.
        other_one (breaks_notes c) (any breaks_notes commits) _ h (unloaded_is_harmless c e)
          (loaded_breaks commits))

any-shown_inherited :
    (commits : List Commit)
    → any shown_inherited commits ≡ (
        any is_inherited_scope (filter (has_type feature_types) commits)
        || any is_inherited_scope (filter (has_type fix_types) commits))
unfolding has_type
any-shown_inherited [] = refl
any-shown_inherited (c ∷ commits) = ground (arith, any-shown_inherited commits)

any-map :
    (f : Text → Commit) (lines : List Text)
    → any (λ line. breaks_notes (f line)) lines ≡ any breaks_notes (map f lines)
any-map f [] = refl
any-map f (line ∷ lines) = ground (arith, any-map f lines)

shows_inherited-any :
    (commits : List Commit) → any shown_inherited commits ≡ true → shows_inherited commits ≡ true
unfolding shows_inherited
shows_inherited-any commits h = ground (arith, h, any-shown_inherited commits)

load_commits-shows_inherited :
    (lower : Text → Text) (raw : Text)
    → any (λ line. breaks_notes (parse_commit lower line)) (non_empty (split 10 raw)) ≡ true
    → shows_inherited (load_commits lower raw) ≡ true
unfolding load_commits split non_empty
load_commits-shows_inherited lower [] h = ground (arith, h)
load_commits-shows_inherited lower (c ∷ raw) h =
    let commits : List Commit = map (parse_commit lower) (non_empty (split 10 (c ∷ raw))) in
    shows_inherited-any (normalize_commits (filter is_loaded commits)) (
      loaded_breaks commits
        (sym (any-map (parse_commit lower) (non_empty (split 10 (c ∷ raw)))) ∙ h))

-- A line of the history that is a feature or a fix, other than the prototype's, and whose scope is the
-- name of a property that every object inherits, as in `feat(constructor): …`, makes the notes fail:
-- the scope is not a text, and the error that its label throws is not caught.
pub inherited_scope_breaks_notes :
    (lower upper : Text → Text) (locale_compare : Text → Text → Ordering)
    (current_tag previous_tag repository : Text) (github_body : Option Text)
    (raw raw_authors : Text) (history : Option Text)
    → any (λ line. breaks_notes (parse_commit lower line)) (non_empty (split 10 raw)) ≡ true
    → build_release_notes lower upper locale_compare current_tag previous_tag repository github_body
        (load_commits lower raw)
        raw_authors
        history
      ≡ none
unfolding build_release_notes
inherited_scope_breaks_notes lower upper locale_compare current previous repository body raw authors
      history h =
    rw (load_commits-shows_inherited lower raw h) refl
