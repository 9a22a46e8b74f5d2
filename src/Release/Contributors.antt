-- ===== src/Release/Contributors.antt =====
-- scripts/generate-release-notes.js: the authors of commits, their logins, and whom the notes thank. What
-- git prints is given, trimmed; `toLowerCase` and `localeCompare` are parameters. A login is never
-- empty. `none` is a thrown error.
use Prim.Native.Nat.{Ordering}
use alt_sendme.Prelude.{
  Bool, true, false, not, ◌||◌, Text, text_eq, Option, none, some, List, [], ◌∷◌, map, filter,
  get_or, contains, get_elem?, split, non_empty, trim, is_some, get, put, or_else, if◌then◌else◌,
  ◌>>=◌,
}
use alt_sendme.Sorting.{sort}
use alt_sendme.Release.Commits.{inherited_properties, parse_commit}
use alt_sendme.Release.Grouping.{push_to}
use alt_sendme.Release.Lines.{noreply_user, credited_login}
use alt_sendme.Release.Work.{
  Authored, author_login_aliases, Contributor, ContributorData, describe_contributor_work,
}

-- What an author resolves to: nobody, a login, or the value that every object has under a name, which is
-- no text.
pub data GithubLogin : Type 0 where
  nobody : GithubLogin
  user inherited : Text → GithubLogin

-- The alias of a name, looked up in a plain object.
abbrev pub alias_of : Text → Option Text → GithubLogin
alias_of key (some login) = user login
alias_of key none = if contains key inherited_properties then inherited key else nobody

-- `===`
abbrev pub same_login : GithubLogin → GithubLogin → Bool
same_login (user a) (user b) = text_eq a b
same_login (inherited a) (inherited b) = text_eq a b
same_login a b = false

-- `githubBody?.split('\n') ?? []`
abbrev pub body_lines : Option Text → List Text
body_lines none = []
body_lines (some body) = split 10 body

abbrev pub by_login_order : (Text → Text → Ordering) → Contributor → Contributor → Ordering
by_login_order locale_compare a b = locale_compare a.login b.login

abbrev pub data_of : List Contributor → ContributorData
data_of contributors = record {
  all = contributors;
  new_contributors = filter (λ contributor. contributor.is_new) contributors;
}

module _ (lower : Text → Text) where
  -- A line of `loadCommitAuthors`; a line without two bars has no subject to parse.
  unfoldable pub author_of : Text → Option Authored
  unfolding split parse_commit
  author_of line = do
    name ← get_elem? (split b'|' line) 0
    email ← get_elem? (split b'|' line) 1
    subject ← get_elem? (split b'|' line) 2
    some (record { name = name; email = email; commit = parse_commit lower subject })

  abbrev pub authors_of : List Text → Option (List Authored)
  authors_of [] = some []
  authors_of (line ∷ lines) = do
    author ← author_of line
    authors ← authors_of lines
    some (author ∷ authors)

  unfoldable pub load_commit_authors : Text → Option (List Authored)
  unfolding split non_empty author_of
  load_commit_authors raw = authors_of (non_empty (split 10 raw))

  abbrev pub name_key : Text → Text
  name_key name = lower (trim name)

  unfoldable pub resolve_github_login : Text → Text → GithubLogin
  unfolding noreply_user get trim contains
  resolve_github_login name email = elim (noreply_user email) [
    | some login ↦ user login
    | none ↦ alias_of (name_key name) (get (name_key name) author_login_aliases)
  ]

  -- Whether a prior author, with no address where the line has no bar, has the login.
  abbrev pub has_login : GithubLogin → Text → Option Text → Option Bool
  has_login login prior_name none = none
  has_login login prior_name (some prior_email) =
      some (same_login (resolve_github_login prior_name prior_email) login)

  abbrev pub is_prior_login : GithubLogin → Text → Option Text → Option Bool
  is_prior_login nobody prior_name prior_email = some false
  is_prior_login login prior_name prior_email = has_login login prior_name prior_email

  abbrev pub is_email : Text → Option Text → Bool
  is_email email none = false
  is_email email (some prior_email) = text_eq prior_email email

  -- The test of a line of the history.
  unfoldable pub is_prior_line : Text → Text → Text → Option Bool
  unfolding split resolve_github_login text_eq trim
  is_prior_line name email line =
      let prior_name = get_or (split b'|' line) 0 [] in
      let prior_email = get_elem? (split b'|' line) 1 in
      if is_email email prior_email then some true else do
        same ← is_prior_login (resolve_github_login name email) prior_name prior_email
        some (same || text_eq (name_key prior_name) (name_key name))

  abbrev pub some_prior_line : Text → Text → List Text → Option Bool
  some_prior_line name email [] = some false
  some_prior_line name email (line ∷ lines) = do
    prior ← is_prior_line name email line
    if prior then some true else some_prior_line name email lines

  abbrev pub has_prior : Text → Text → Option Text → Option Bool
  has_prior name email none = none
  has_prior name email (some []) = some false
  has_prior name email (some (c ∷ s)) = some_prior_line name email (split 10 (c ∷ s))

  -- `history` is what git prints up to the previous tag.
  unfoldable pub author_has_prior_contributions : Text → Text → Text → Option Text → Bool
  unfolding is_prior_line
  author_has_prior_contributions name email [] history = false
  author_has_prior_contributions name email (c ∷ previous_tag) history =
      or_else (has_prior name email history) false

  -- A round of the loop over the commits, with what the author resolves to. An inherited value has no
  -- `toLowerCase`, and the error is not caught.
  abbrev pub credit_login :
      Text
      → List (Text × List Authored)
      → Authored
      → GithubLogin
      → Option (List (Text × List Authored))
  credit_login owner entries commit nobody = some entries
  credit_login owner entries commit (user login) =
      some (if text_eq (lower login) owner then entries else push_to login commit entries)
  credit_login owner entries commit (inherited key) = none

  unfoldable pub credit_commit :
      Text → List (Text × List Authored) → Authored → Option (List (Text × List Authored))
  unfolding resolve_github_login text_eq push_to
  credit_commit owner entries commit =
      credit_login owner entries commit (resolve_github_login commit.name commit.email)

  unfoldable pub credit_commits :
      Text → List (Text × List Authored) → List Authored → Option (List (Text × List Authored))
  unfolding credit_commit
  credit_commits owner entries [] = some entries
  credit_commits owner entries (commit ∷ commits) = do
    next ← credit_commit owner entries commit
    credit_commits owner next commits

  -- A round of the loop over the lines of GitHub's notes, with the login that the line credits.
  abbrev pub credit_found :
      Text → List (Text × List Authored) → Option Text → List (Text × List Authored)
  credit_found owner entries none = entries
  credit_found owner entries (some login) =
      if text_eq (lower login) owner || is_some (get login entries)
      then entries
      else put login [] entries

  unfoldable pub credit_line :
      Text → List (Text × List Authored) → Text → List (Text × List Authored)
  unfolding credited_login text_eq get put
  credit_line owner entries line = credit_found owner entries (credited_login line)

  unfoldable pub credit_lines :
      Text → List (Text × List Authored) → List Text → List (Text × List Authored)
  unfolding credit_line
  credit_lines owner entries [] = entries
  credit_lines owner entries (line ∷ lines) =
      credit_lines owner (credit_line owner entries line) lines

  abbrev pub is_new_author : Text → Option Text → List Authored → Bool
  is_new_author previous_tag history [] = false
  is_new_author previous_tag history (c ∷ commits) =
      not (author_has_prior_contributions c.name c.email previous_tag history)

  abbrev pub contributor_of : Text → Option Text → Text × List Authored → Contributor
  contributor_of previous_tag history entry = record {
    login = entry.0;
    work = describe_contributor_work (map (λ (c : Authored). c.commit) entry.1);
    is_new = is_new_author previous_tag history entry.1;
  }

  abbrev pub owner_of : Text → Text
  owner_of repository = lower (get_or (split b'/' repository) 0 [])

  -- The entries of both loops.
  unfoldable pub credited_entries :
      Text → Option Text → List Authored → Option (List (Text × List Authored))
  unfolding split credit_commits credit_lines
  credited_entries repository github_body authors = do
    entries ← credit_commits (owner_of repository) [] authors
    some (credit_lines (owner_of repository) entries (body_lines github_body))

  module _ (locale_compare : Text → Text → Ordering) where
    -- `raw_authors` is what git prints for the range.
    unfoldable pub collect_contributors :
        Text → Text → Option Text → Text → Option Text → Option ContributorData
    unfolding load_commit_authors credited_entries
    collect_contributors raw_authors previous_tag history repository github_body = do
      authors ← load_commit_authors raw_authors
      entries ← credited_entries repository github_body authors
      some (
          data_of (
            sort (by_login_order locale_compare)
              (map (contributor_of previous_tag history) entries)))
