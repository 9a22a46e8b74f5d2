-- ===== src/Release/Normalized.antt =====
-- scripts/generate-release-notes.js: what a commit is like when it is normalized.
use alt_sendme.Prelude.{
  Bool, true, false, not, ◌&&◌, ◌≡◌, refl, sym, Text, codes, text_eq, text_eq_iff, Option, none,
  some, List, [], ◌∷◌, filter, contains, get, or_else, is_truthy, arith, All, if◌then◌else◌,
  if_elim,
}
use alt_sendme.Release.Commits.{
  Commit, aliased, inherited_properties, skip_types, feature_types, is_loaded, cons_some,
  normalize_scope, normalize_commit, normalize_commits,
}
use alt_sendme.Release.Patterns.{is_prototype, has_pairing_keyword}
use alt_sendme.Release.Sections.{general}

abbrev pub is_pair : Option Text → Bool
is_pair none = false
is_pair (some scope) = text_eq scope (codes "pair")

abbrev pub is_inherited : Option Text → Bool
is_inherited none = false
is_inherited (some scope) = contains scope inherited_properties

-- A commit that is loaded.
pub record Normal (commit : Commit) : Type 0 where
  pub not_skipped : contains commit.type skip_types ≡ false
  pub not_prototype : is_prototype commit.subject ≡ false
  pub not_pair : is_pair commit.scope ≡ false
  pub marked : commit.scope_inherited ≡ is_inherited commit.scope
  pub pairing_scoped :
      contains commit.type feature_types ≡ true
      → has_pairing_keyword commit.subject ≡ true
      → is_truthy commit.scope ≡ true

pairing_not_pair : text_eq (codes "pairing") (codes "pair") ≡ false
unfolding text_eq
pairing_not_pair = refl

negated_is_false : (b : Bool) → not b ≡ true → b ≡ false
negated_is_false b h = ground arith

pub pair_key :
    (o : Option Text) → is_pair o ≡ false → text_eq (or_else o general) (codes "pair") ≡ false
unfolding text_eq
pair_key none h = refl
pair_key (some scope) h = h

pairing_not_inherited : contains (codes "pairing") inherited_properties ≡ false
unfolding contains text_eq
pairing_not_inherited = refl

-- What a normalized scope is like.
record NormalScope (o : Option Text × Bool) : Type 0 where
  unpaired : is_pair o.0 ≡ false
  told : o.1 ≡ is_inherited o.0

alias-NormalScope :
    (scope : Text) (b : Bool)
    → text_eq (codes "pair") scope ≡ b
    → NormalScope (aliased scope (if b then some (codes "pairing") else none))
alias-NormalScope scope true e = record {
  unpaired = pairing_not_pair;
  told = sym pairing_not_inherited;
}
alias-NormalScope scope false e = record {
  unpaired = ground (arith, e, text_eq_iff (codes "pair") scope, text_eq_iff scope (codes "pair"));
  told = refl;
}

normalize_scope-NormalScope : (scope : Option Text) → NormalScope (normalize_scope scope)
unfolding normalize_scope get
normalize_scope-NormalScope none = record { unpaired = refl; told = refl }
normalize_scope-NormalScope (some []) = record { unpaired = refl; told = refl }
normalize_scope-NormalScope (some (c ∷ s)) =
    alias-NormalScope (c ∷ s) (text_eq (codes "pair") (c ∷ s)) refl

abbrev NormalIfSome : Option Commit → Type 0
NormalIfSome none = Unit
NormalIfSome (some commit) = Normal commit

normalize_commit-Normal :
    (commit : Commit) → is_loaded commit ≡ true → NormalIfSome (normalize_commit commit)
unfolding normalize_commit
normalize_commit-Normal commit l =
    let scope : Option Text × Bool = normalize_scope commit.scope in
    let normal = normalize_scope-NormalScope commit.scope in
    let is_unscoped : Bool =
      not (is_truthy scope.0)
      && contains commit.type feature_types
      && has_pairing_keyword commit.subject in
    let general : Commit = record commit { scope = scope.0; scope_inherited = scope.1 } in
    let pairing : Commit = record commit {
      scope = some (codes "pairing");
      scope_inherited = false;
    } in
    if_elim NormalIfSome (is_prototype commit.subject) none
      (if is_unscoped then some pairing else some general) (λ e. tt)
      (λ e.
        if_elim NormalIfSome is_unscoped (some pairing) (some general)
          (λ u. record {
            not_skipped = negated_is_false (contains commit.type skip_types) l;
            not_prototype = e;
            not_pair = pairing_not_pair;
            marked = sym pairing_not_inherited;
            pairing_scoped = λ f k. refl;
          })
          (λ u. record {
            not_skipped = negated_is_false (contains commit.type skip_types) l;
            not_prototype = e;
            not_pair = normal.unpaired;
            marked = normal.told;
            pairing_scoped = λ f k. ground arith;
          }))

cons_some-All :
    (o : Option Commit) (commits : List Commit)
    → NormalIfSome o
    → All Normal commits
    → All Normal (cons_some o commits)
cons_some-All none commits n a = a
cons_some-All (some commit) commits n a = (n, a)

pub normalize_loaded-Normal :
    (commits : List Commit) → All Normal (normalize_commits (filter is_loaded commits))
unfolding normalize_commits
normalize_loaded-Normal [] = tt
normalize_loaded-Normal (c ∷ commits) =
    if_elim (λ cs. All Normal (normalize_commits cs)) (is_loaded c) (c ∷ filter is_loaded commits)
      (filter is_loaded commits)
      (λ e.
        cons_some-All (normalize_commit c) (normalize_commits (filter is_loaded commits))
          (normalize_commit-Normal c e) (normalize_loaded-Normal commits))
      (λ e. normalize_loaded-Normal commits)
