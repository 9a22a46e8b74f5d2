-- ===== src/Release/Logins.antt =====
-- scripts/generate-release-notes.js: the logins of the entries to which the loops credit commits and lines.
use mathlib.Core.Path.{◌∙◌}
use alt_sendme.Prelude.{
  Bool, true, false, if◌then◌else◌, ◌>>=◌, ap, not, ◌&&◌, ◌||◌, ◌≡◌, refl, Text, text_eq,
  text_eq_iff, Option, none, some, List, [], ◌∷◌, ◌++◌, map, any, or_else, contains, get, put,
  is_some, arith, if_elim,
}
use alt_sendme.Release.Contributors.{
  GithubLogin, nobody, user, inherited, resolve_github_login, credit_login, credit_found,
  credit_commit, credit_commits, credit_line, credit_lines,
}
use alt_sendme.Release.Work.{Authored, Contributor}
use alt_sendme.Release.Grouping.{Distinct, push_to}
use alt_sendme.Release.Lines.{credited_login}

abbrev pub logins : List (Text × List Authored) → List Text
logins entries = map (λ entry. entry.0) entries

contains-put :
    (j k : Text) (v : List Authored) (m : List (Text × List Authored))
    → contains j (logins (put k v m)) ≡ (text_eq k j || contains j (logins m))
unfolding put contains
contains-put j k v [] = ground arith
contains-put j k v ((i, w) ∷ m) =
    ground (arith, contains-put j k v m, text_eq_iff i k, text_eq_iff k j, text_eq_iff i j)

put-Distinct :
    (k : Text) (v : List Authored) (m : List (Text × List Authored))
    → Distinct (logins m)
    → Distinct (logins (put k v m))
unfolding put Distinct contains
put-Distinct k v [] d = (refl, tt)
put-Distinct k v ((i, w) ∷ m) d =
    if_elim (λ n. Distinct (logins n)) (text_eq i k) ((i, v) ∷ m) ((i, w) ∷ put k v m) (λ e. d)
      (λ e. (
        ground (arith, contains-put i k v m, text_eq_iff i k, text_eq_iff k i, d.0, e),
        put-Distinct k v m d.1,
      ))

get-contains :
    (k : Text) (m : List (Text × List Authored)) → is_some (get k m) ≡ contains k (logins m)
unfolding get contains
get-contains k [] = refl
get-contains k ((i, w) ∷ m) = ground (arith, get-contains k m)

-- Whether a login was found, and is this one.
abbrev pub is_login_of : Text → Option Text → Bool
is_login_of login none = false
is_login_of login (some found) = text_eq found login

either :
    (old here later other next : Bool)
    → next ≡ (old || (here && other))
    → (next || (later && other)) ≡ (old || ((here || later) && other))
either old here later other next h = ground arith

-- The login that an author resolves to, if it is one.
abbrev pub known : GithubLogin → Option Text
known nobody = none
known (user login) = some login
known (inherited key) = none

-- Whether an author resolves to no text.
abbrev pub is_untold : GithubLogin → Bool
is_untold nobody = false
is_untold (user login) = false
is_untold (inherited key) = true

abbrev pub is_unresolved : (Text → Text) → Authored → Bool
is_unresolved lower author = is_untold (resolve_github_login lower author.name author.email)

module _ (lower : Text → Text) (owner : Text) where
  abbrev is_owner : Text → Bool
  is_owner login = text_eq (lower login) owner

  abbrev pub wrote : Text → Authored → Bool
  wrote login author =
      is_login_of login (known (resolve_github_login lower author.name author.email))

  abbrev pub credits : Text → Text → Bool
  credits login line = is_login_of login (credited_login line)

  -- The entries with a commit of an author that was found.
  abbrev credited_to :
      List (Text × List Authored) → Authored → Option Text → List (Text × List Authored)
  credited_to m c none = m
  credited_to m c (some login) = if is_owner login then m else push_to login c m

  contains-credited_to :
      (j : Text) (m : List (Text × List Authored)) (c : Authored) (o : Option Text)
      → contains j (logins (credited_to m c o))
        ≡ (contains j (logins m) || (is_login_of j o && not (is_owner j)))
  unfolding push_to
  contains-credited_to j m c none = ground arith
  contains-credited_to j m c (some login) =
      ground
        (arith, text_eq_iff login j, contains-put j login (or_else (get login m) [] ++ c ∷ []) m)

  credited_to-Distinct :
      (m : List (Text × List Authored)) (c : Authored) (o : Option Text)
      → Distinct (logins m)
      → Distinct (logins (credited_to m c o))
  unfolding push_to
  credited_to-Distinct m c none d = d
  credited_to-Distinct m c (some login) d =
      let next : List (Text × List Authored) = push_to login c m in
      if_elim (λ n. Distinct (logins n)) (is_owner login) m next (λ e. d)
        (λ e. put-Distinct login (or_else (get login m) [] ++ c ∷ []) m d)

  contains-credit_found :
      (j : Text) (m : List (Text × List Authored)) (o : Option Text)
      → contains j (logins (credit_found lower owner m o))
        ≡ (contains j (logins m) || (is_login_of j o && not (is_owner j)))
  contains-credit_found j m none = ground arith
  contains-credit_found j m (some login) =
      ground (arith, text_eq_iff login j, contains-put j login [] m, get-contains login m)

  credit_found-Distinct :
      (m : List (Text × List Authored)) (o : Option Text)
      → Distinct (logins m)
      → Distinct (logins (credit_found lower owner m o))
  credit_found-Distinct m none d = d
  credit_found-Distinct m (some login) d =
      if_elim (λ n. Distinct (logins n)) (is_owner login || is_some (get login m)) m
        (put login [] m) (λ e. d) (λ e. put-Distinct login [] m d)

  -- What the loop over the commits gives: an error when an author resolves to no text, and else entries
  -- with each login once, which are those of before and of the authors but the owner.
  pub record CreditedEntries (m n : List (Text × List Authored)) (cs : List Authored) : Type 0 where
    pub distinct : Distinct (logins m) → Distinct (logins n)
    pub listed :
        (j : Text)
        → contains j (logins n) ≡ (contains j (logins m) || (any (wrote j) cs && not (is_owner j)))

  pub data CreditResult (m : List (Text × List Authored)) (cs : List Authored)
      : Option (List (Text × List Authored)) → Type 0 where
    fails : any (is_unresolved lower) cs ≡ true → CreditResult m cs none
    gives :
        (n : List (Text × List Authored))
        → any (is_unresolved lower) cs ≡ false
        → CreditedEntries m n cs
        → CreditResult m cs (some n)

  credits_more :
      {result : Option (List (Text × List Authored))} (m : List (Text × List Authored))
      (c : Authored) (cs : List Authored)
      → is_unresolved lower c ≡ false
      → CreditResult (credited_to m c (known (resolve_github_login lower c.name c.email))) cs result
      → CreditResult m (c ∷ cs) result
  credits_more m c cs e (fails u) = fails (ground (arith, u))
  credits_more m c cs e (gives n u r) =
      let o = known (resolve_github_login lower c.name c.email) in
      gives n (ground (arith, e, u)) (record {
        distinct = λ d. r.distinct (credited_to-Distinct m c o d);
        listed = λ j.
            r.listed j
            ∙ either (contains j (logins m)) (wrote j c) (any (wrote j) cs) (not (is_owner j))
                (contains j (logins (credited_to m c o))) (contains-credited_to j m c o);
      })

  credits_first :
      (m : List (Text × List Authored)) (c : Authored) (cs : List Authored) (login : GithubLogin)
      → resolve_github_login lower c.name c.email ≡ login
      → ((n : List (Text × List Authored)) → CreditResult n cs (credit_commits lower owner n cs))
      → CreditResult m
          (c ∷ cs)
          (credit_login lower owner m c login >>= λ n. credit_commits lower owner n cs)
  credits_first m c cs nobody e rest = credits_more m c cs (ap is_untold e) (rw (e) (rest m))
  credits_first m c cs (user login) e rest =
      credits_more m c cs (ap is_untold e) (rw (e) (rest (credited_to m c (some login))))
  credits_first m c cs (inherited key) e rest =
      let unresolved : is_unresolved lower c ≡ true = ap is_untold e in
      fails (ground (arith, unresolved))

  pub credit_commits-CreditResult :
      (m : List (Text × List Authored)) (cs : List Authored)
      → CreditResult m cs (credit_commits lower owner m cs)
  unfolding credit_commits credit_commit
  credit_commits-CreditResult m [] =
      gives m refl (record { distinct = λ d. d; listed = λ j. ground arith })
  credit_commits-CreditResult m (c ∷ cs) =
      credits_first m c cs (resolve_github_login lower c.name c.email) refl
        (λ n. credit_commits-CreditResult n cs)

  pub contains-credit_lines :
      (j : Text) (m : List (Text × List Authored)) (lines : List Text)
      → contains j (logins (credit_lines lower owner m lines))
        ≡ (contains j (logins m) || (any (credits j) lines && not (is_owner j)))
  unfolding credit_lines credit_line
  contains-credit_lines j m [] = ground arith
  contains-credit_lines j m (line ∷ lines) =
      let o = credited_login line in
      contains-credit_lines j (credit_found lower owner m o) lines
      ∙ either (contains j (logins m)) (credits j line) (any (credits j) lines) (not (is_owner j))
          (contains j (logins (credit_found lower owner m o))) (contains-credit_found j m o)

  pub credit_lines-Distinct :
      (m : List (Text × List Authored)) (lines : List Text)
      → Distinct (logins m)
      → Distinct (logins (credit_lines lower owner m lines))
  unfolding credit_lines credit_line
  credit_lines-Distinct m [] d = d
  credit_lines-Distinct m (line ∷ lines) d =
      let o = credited_login line in
      credit_lines-Distinct (credit_found lower owner m o) lines (credit_found-Distinct m o d)

-- The logins of the sorted contributors.
abbrev pub names : List Contributor → List Text
names cs = map (λ (c : Contributor). c.login) cs
