-- ===== src/Release/Partition.antt =====
-- scripts/generate-release-notes.js: what `groupByScope` does to the commits.
use mathlib.Core.Path.{◌∙◌}
use alt_sendme.Prelude.{
  ◌<◌, Bool, true, ◌≡◌, refl, sym, ap, subst, Text, text_eq, text_eq_iff, List, [], ◌∷◌, map,
  filter, length, All, get, contains, or_else, arith,
}
use alt_sendme.Release.Commits.{Commit}
use alt_sendme.Release.Grouping.{
  Distinct, table, values_of, keys_from, has_key, get-table, contains-keys_from, values_of-nonempty,
  values_of-outside, keys_from-Distinct, push_all-Table,
}
use alt_sendme.Release.Sections.{general, keyed, group_by_scope}

-- Whether a commit has the scope that is the key of a group.
abbrev pub is_of_scope : Text → Commit → Bool
is_of_scope scope commit = text_eq (or_else commit.scope general) scope

values_of-keyed :
    (scope : Text) (commits : List Commit)
    → values_of scope (map keyed commits) ≡ filter (is_of_scope scope) commits
unfolding values_of
values_of-keyed scope [] = refl
values_of-keyed scope (c ∷ commits) = ground (arith, values_of-keyed scope commits)

abbrev pub keys : List (Text × List Commit) → List Text
keys groups = map (λ group. group.0) groups

keys-table : (f : Text → List Commit) (ks : List Text) → keys (table f ks) ≡ ks
unfolding table
keys-table f [] = refl
keys-table f (k ∷ ks) = ap (◌∷◌ k) (keys-table f ks)

All-table :
    (f : Text → List Commit) (P : Text × List Commit → Type 0) (ks : List Text)
    → ((k : Text) → contains k ks ≡ true → P (k, f k))
    → All P (table f ks)
unfolding table contains
All-table f P [] h = tt
All-table f P (k ∷ ks) h =
    (h k (ground (arith, text_eq_iff k k)), All-table f P ks (λ j e. h j (ground (arith, e))))

-- What a group is to be: the commits of its scope, at least one.
pub record IsGroup (commits : List Commit) (group : Text × List Commit) : Type 0 where
  pub members : group.1 ≡ filter (is_of_scope group.0) commits
  pub nonempty : 0 < length group.1

get-Members :
    (scope : Text) (commits : List Commit)
    → or_else
        (get scope
          (table (λ k. values_of k (map keyed commits)) (keys_from [] (map keyed commits))))
        []
      ≡ filter (is_of_scope scope) commits
unfolding contains
get-Members scope commits =
    let pairs : List (Text × Commit) = map keyed commits in
    ground (
      arith,
      get-table (λ k. values_of k pairs) scope (keys_from [] pairs),
      contains-keys_from scope [] pairs,
      values_of-keyed scope commits,
      values_of-outside scope pairs,
    )

-- The groups have different scopes; each has the commits of its scope, in their order, and at least one;
-- and every scope that a commit has is that of a group.
pub group_by_scope-IsGroup :
    (commits : List Commit)
    → Distinct (keys (group_by_scope commits))
      × All (IsGroup commits) (group_by_scope commits)
      × ((scope : Text)
          → or_else (get scope (group_by_scope commits)) [] ≡ filter (is_of_scope scope) commits)
unfolding group_by_scope Distinct contains
group_by_scope-IsGroup commits =
    let pairs : List (Text × Commit) = map keyed commits in
    let f : Text → List Commit = λ k. values_of k pairs in
    let ks : List Text = keys_from [] pairs in
    let has : (k : Text) → contains k ks ≡ has_key k pairs =
      λ k. ground (arith, contains-keys_from k [] pairs) in
    subst
      (λ groups.
        Distinct (keys groups)
        × All (IsGroup commits) groups
        × ((scope : Text) → or_else (get scope groups) [] ≡ filter (is_of_scope scope) commits))
      (sym (push_all-Table pairs))
      (
        subst Distinct (sym (keys-table f ks)) (keys_from-Distinct [] pairs tt),
        All-table f (IsGroup commits) ks (λ k e. record {
          members = values_of-keyed k commits;
          nonempty = values_of-nonempty k pairs (sym (has k) ∙ e);
        }),
        λ scope. get-Members scope commits,
      )
