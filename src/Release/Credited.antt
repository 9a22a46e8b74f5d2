-- ===== src/Release/Credited.antt =====
-- scripts/generate-release-notes.js: whom the notes thank.
use Prim.Native.Nat.{Ordering}
use mathlib.Core.Path.{◌∙◌}
use alt_sendme.Prelude.{
  Bool, true, false, none, ◌⊎◌, inl, inr, not, ◌&&◌, ◌||◌, ◌≡◌, refl, sym, ap, subst, Text, text_eq,
  text_eq_iff, Option, some, List, [], ◌∷◌, map, any, filter, contains, arith, if_elim,
}
use alt_sendme.Sorting.{insert, sort, is_after}
use alt_sendme.Release.Contributors.{
  credit_commits, credit_lines, load_commit_authors, owner_of, body_lines, credited_entries,
  contributor_of, data_of, by_login_order, collect_contributors,
}
use alt_sendme.Release.Work.{Authored, Contributor, ContributorData}
use alt_sendme.Release.Grouping.{Distinct}
use alt_sendme.Release.Logins.{
  logins, wrote, credits, is_unresolved, CreditedEntries, CreditResult, fails, gives,
  credit_commits-CreditResult, contains-credit_lines, credit_lines-Distinct, names,
}

module _ (order : Contributor → Contributor → Ordering) where
  contains-insert :
      (j : Text) (c : Contributor) (cs : List Contributor)
      → contains j (names (insert order c cs)) ≡ (text_eq c.login j || contains j (names cs))
  unfolding contains
  contains-insert j c [] = ground arith
  contains-insert j c (d ∷ cs) = ground (arith, contains-insert j c cs)

  insert-Distinct :
      (c : Contributor) (cs : List Contributor)
      → contains c.login (names cs) ≡ false
      → Distinct (names cs)
      → Distinct (names (insert order c cs))
  unfolding Distinct contains
  insert-Distinct c [] h d = (refl, tt)
  insert-Distinct c (e ∷ cs) h d =
      if_elim (λ n. Distinct (names n)) (is_after (order c e)) (e ∷ insert order c cs) (c ∷ e ∷ cs)
        (λ k. (
          ground (
            arith,
            contains-insert e.login c cs,
            text_eq_iff e.login c.login,
            text_eq_iff c.login e.login,
            d.0,
            h,
          ),
          insert-Distinct c cs (ground (arith, h)) d.1,
        ))
        (λ k. (h, d))

  contains-sort :
      (j : Text) (cs : List Contributor)
      → contains j (names (sort order cs)) ≡ contains j (names cs)
  unfolding contains
  contains-sort j [] = refl
  contains-sort j (c ∷ cs) = ground (arith, contains-sort j cs, contains-insert j c (sort order cs))

  sort-Distinct : (cs : List Contributor) → Distinct (names cs) → Distinct (names (sort order cs))
  unfolding Distinct contains
  sort-Distinct [] d = tt
  sort-Distinct (c ∷ cs) d =
      insert-Distinct c (sort order cs) (contains-sort c.login cs ∙ d.0) (sort-Distinct cs d.1)

names-contributor_of :
    (lower : Text → Text) (tag : Text) (history : Option Text) (m : List (Text × List Authored))
    → names (map (contributor_of lower tag history) m) ≡ logins m
names-contributor_of lower tag history [] = refl
names-contributor_of lower tag history (e ∷ m) =
    ap (◌∷◌ e.0) (names-contributor_of lower tag history m)

both :
    (wrote_it credited owner mine all : Bool)
    → mine ≡ (false || (wrote_it && not owner))
    → all ≡ (mine || (credited && not owner))
    → all ≡ ((wrote_it || credited) && not owner)
both wrote_it credited owner mine all e f = ground arith

-- What is collected: whom the notes thank, and those of them who are new.
pub record Collected (lower : Text → Text) (repository : Text) (github_body : Option Text)
    (authors : List Authored) (result : Option ContributorData) : Type 0 where
  pub contributors : ContributorData
  pub collected : result ≡ some contributors
  pub once : Distinct (names contributors.all)
  pub credited :
      (login : Text)
      → contains login (names contributors.all) ≡ (
          (any (wrote lower (owner_of lower repository) login) authors
            || any (credits lower (owner_of lower repository) login) (body_lines github_body))
          && not (text_eq (lower login) (owner_of lower repository)))
  pub new_ones : contributors.new_contributors ≡ filter (λ c. c.is_new) contributors.all

-- Either an author resolves to an inherited value and nothing is collected, or none does, and it is
-- collected as described.
abbrev pub Outcome :
    (Text → Text) → Text → Option Text → List Authored → Option ContributorData → Type 0
Outcome lower repository github_body authors result =
    ((any (is_unresolved lower) authors ≡ true) × (result ≡ none))
    ⊎ ((any (is_unresolved lower) authors ≡ false)
        × Collected lower repository github_body authors result)

module _ (lower : Text → Text) (locale_compare : Text → Text → Ordering) (tag : Text)
    (history : Option Text) (repository : Text) (body : Option Text) where
  abbrev owner : Text
  owner = owner_of lower repository

  -- The contributors, from what the loop over the commits gives.
  abbrev collected_from : Option (List (Text × List Authored)) → Option ContributorData
  collected_from none = none
  collected_from (some first) = some (
      data_of (
        sort (by_login_order locale_compare) (
          map (contributor_of lower tag history)
            (credit_lines lower owner first (body_lines body)))))

  entries-Collected :
      (authors : List Authored) (first : List (Text × List Authored))
      → CreditedEntries lower owner [] first authors
      → Collected lower repository body authors (collected_from (some first))
  unfolding Distinct contains
  entries-Collected authors first r =
      let order : Contributor → Contributor → Ordering = by_login_order locale_compare in
      let entries : List (Text × List Authored) =
        credit_lines lower owner first (body_lines body) in
      let people : List Contributor = map (contributor_of lower tag history) entries in
      let shown = names-contributor_of lower tag history entries in
      record {
        contributors = data_of (sort order people);
        collected = refl;
        once = sort-Distinct order people (
            subst Distinct (sym shown)
              (credit_lines-Distinct lower owner first (body_lines body) (r.distinct tt)));
        credited = λ login.
            contains-sort order login people
            ∙ ap (contains login) shown
            ∙ both (any (wrote lower owner login) authors)
                (any (credits lower owner login) (body_lines body)) (text_eq (lower login) owner)
                (contains login (logins first)) (contains login (logins entries)) (r.listed login)
                (contains-credit_lines lower owner login first (body_lines body));
        new_ones = refl;
      }

  result-Outcome :
      {result : Option (List (Text × List Authored))} (authors : List Authored)
      → CreditResult lower owner [] authors result
      → Outcome lower repository body authors (collected_from result)
  result-Outcome authors (fails u) = inl (u, refl)
  result-Outcome authors (gives first u r) = inr (u, entries-Collected authors first r)

  collected_from-collect :
      (authors : List Authored) (result : Option (List (Text × List Authored)))
      → credit_commits lower owner [] authors ≡ result
      → (raw : Text) → load_commit_authors lower raw ≡ some authors
      → collect_contributors lower locale_compare raw tag history repository body
        ≡ collected_from result
  unfolding collect_contributors credited_entries
  collected_from-collect authors none e raw k = rw (k, e) refl
  collected_from-collect authors (some first) e raw k = rw (k, e) refl

-- When git's lines name the authors, either an author has no noreply address and a name that, trimmed
-- and in lower case, is no alias but a property that every object inherits, and the script throws; or
-- no author has, and the notes thank each login once: those who wrote a commit of the range or whom a
-- line of GitHub's notes credits, except the owner of the repository, in any case of letters.
pub collect_contributors-Collected :
    (lower : Text → Text) (locale_compare : Text → Text → Ordering) (raw tag : Text)
    (history : Option Text) (repository : Text) (github_body : Option Text)
    (authors : List Authored)
    → load_commit_authors lower raw ≡ some authors
    → Outcome lower repository github_body authors
        (collect_contributors lower locale_compare raw tag history repository github_body)
collect_contributors-Collected lower locale_compare raw tag history repository body authors e =
    let owner : Text = owner_of lower repository in
    subst (Outcome lower repository body authors)
      (sym (
        collected_from-collect lower locale_compare tag history repository body authors
          (credit_commits lower owner [] authors) refl raw e))
      (result-Outcome lower locale_compare tag history repository body authors
        (credit_commits-CreditResult lower owner [] authors))
