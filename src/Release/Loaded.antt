-- ===== src/Release/Loaded.antt =====
-- scripts/generate-release-notes.js: what the commits that are loaded are like.
use alt_sendme.Prelude.{
  Bool, false, ◌≡◌, refl, ap, ◌∙◌, Text, codes, text_eq, text_eq_iff, List, [], ◌∷◌, map, filter,
  length, split, non_empty, arith, All, Bool-cases, inl, inr,
}
use alt_sendme.Release.Commits.{Commit, parse_commit, load_commits}
use alt_sendme.Release.Notes.{has_type}
use alt_sendme.Release.Partition.{is_of_scope, IsGroup, group_by_scope-IsGroup}
use alt_sendme.Release.Sections.{group_by_scope}
use alt_sendme.Release.Normalized.{Normal, pair_key, normalize_loaded-Normal}

load-Normal : (lower : Text → Text) (raw : Text) → All Normal (load_commits lower raw)
unfolding load_commits
load-Normal lower [] = tt
load-Normal lower (c ∷ raw) =
    normalize_loaded-Normal (map (parse_commit lower) (non_empty (split 10 (c ∷ raw))))

none_is_pair :
    (p : Commit → Bool) (commits : List Commit)
    → All Normal commits
    → filter (is_of_scope (codes "pair")) (filter p commits) ≡ []
none_is_pair p [] a = refl
none_is_pair p (c ∷ commits) a =
    ground (arith, none_is_pair p commits a.1, pair_key c.scope a.0.not_pair)

group_not_pair :
    (commits : List Commit) (group : Text × List Commit)
    → filter (is_of_scope (codes "pair")) commits ≡ []
    → IsGroup commits group
    → text_eq group.0 (codes "pair") ≡ false
group_not_pair commits group e g = elim (Bool-cases (text_eq group.0 (codes "pair"))) [
  | inl same ↦
      let key : group.0 ≡ codes "pair" = (text_eq_iff group.0 (codes "pair")).0 same in
      let empty : group.1 ≡ [] = g.members ∙ ap (λ k. filter (is_of_scope k) commits) key ∙ e in
      let size : length group.1 ≡ 0 = ap length empty in ground (arith, g.nonempty, size)
  | inr e ↦ e
]

groups_not_pair :
    (commits : List Commit) (groups : List (Text × List Commit))
    → filter (is_of_scope (codes "pair")) commits ≡ []
    → All (IsGroup commits) groups
    → All (λ group. text_eq group.0 (codes "pair") ≡ false) groups
groups_not_pair commits [] e a = tt
groups_not_pair commits (g ∷ groups) e a =
    (group_not_pair commits g e a.0, groups_not_pair commits groups e a.1)

-- Every commit that is loaded is of a type that the notes may show, is not the prototype's, and has not
-- the scope `pair`; a feature that names pairing has a scope; and a scope is an inherited value exactly
-- when its name is that of a property of every object, so that no text is such a name. No group of them, of whatever
-- types, has the key `pair` that the highlights would skip.
pub load_commits-Normal :
    (lower : Text → Text) (raw : Text)
    → All Normal (load_commits lower raw)
      × ((types : List Text)
          → All
              (λ group. text_eq group.0 (codes "pair") ≡ false)
              (group_by_scope (filter (has_type types) (load_commits lower raw))))
load_commits-Normal lower raw = (
  load-Normal lower raw,
  λ types.
      let commits : List Commit = filter (has_type types) (load_commits lower raw) in
      groups_not_pair commits (group_by_scope commits)
        (none_is_pair (has_type types) (load_commits lower raw) (load-Normal lower raw))
        (group_by_scope-IsGroup commits).1,
)
