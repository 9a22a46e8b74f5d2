-- ===== src/Release/Scanned.antt =====
-- scripts/generate-release-notes.js: which lines of GitHub's notes `extractGithubSections` takes.
use mathlib.Core.Path.{◌∙◌}
use alt_sendme.Prelude.{
  Bool, true, false, not, Bool-cases, inl, inr, ◌&&◌, ◌||◌, ◌≡◌, refl, sym, ap, Text, codes, some,
  List, [], ◌∷◌, ◌++◌, map, filter, split, All, arith, append_assoc, append-nil, if◌then◌else◌,
}
use alt_sendme.Release.Lines.{starts_with, dashed}
use alt_sendme.Release.Patterns.{after}
use alt_sendme.Release.Notes.{
  GithubSections, is_unlisted, no_sections, scan_item, scan_line, scan_lines,
  extract_github_sections,
}

abbrev pub is_item : Text → Bool
is_item line = starts_with (codes "* ") line

abbrev pub is_heading : Text → Bool
is_heading line = starts_with (codes "## ") line

-- The heading of the new contributors.
abbrev pub is_new_heading : Text → Bool
is_new_heading line = starts_with (codes "## New Contributors") line

abbrev pub is_listed_item : Text → Bool
is_listed_item line = is_item line && not (is_unlisted line)

full_not_item :
    (line : Text) → starts_with (codes "**Full Changelog**") line ≡ true → is_item line ≡ false
unfolding starts_with after
full_not_item [] h = refl
full_not_item (c ∷ []) h = ground arith
full_not_item (c ∷ d ∷ line) h = ground arith

heading_not_item : (line : Text) → is_heading line ≡ true → is_item line ≡ false
unfolding starts_with after
heading_not_item [] h = refl
heading_not_item (c ∷ line) h = ground arith

after-append : (p q line : Text) → starts_with (p ++ q) line ≡ true → starts_with p line ≡ true
unfolding starts_with after
after-append [] q line h = refl
after-append (c ∷ p) q [] h = h
after-append (c ∷ p) q (d ∷ line) h = ground (arith, after-append p q line)

new_heading_is_heading : (line : Text) → is_new_heading line ≡ true → is_heading line ≡ true
new_heading_is_heading line h = after-append (codes "## ") (codes "New Contributors") line h

-- What `scan_line` makes of the lists.
abbrev sections : List Text → List Text → Bool → GithubSections
sections prs credits inside = record {
  pr_lines = prs;
  contributors = credits;
  in_contributors = inside;
}

items_if :
    (b : Bool) (xs : List Text) (x : Text) (ys : List Text)
    → (if b then xs ++ x ∷ [] else xs) ++ ys ≡ xs ++ (if b then x ∷ ys else ys)
items_if true xs x ys = append_assoc xs (x ∷ []) ys
items_if false xs x ys = refl

outside_step :
    (prs credits : List Text) (line : Text) (full item unlisted : Bool)
    → (full ≡ true → item ≡ false)
    → (if full || not item
        then sections prs credits false
        else if unlisted
        then sections prs credits false
        else sections (prs ++ dashed line ∷ []) credits false)
      ≡ sections (if item && not unlisted then prs ++ dashed line ∷ [] else prs) credits false
outside_step prs credits line true true unlisted h = ground (arith, h refl)
outside_step prs credits line true false unlisted h = refl
outside_step prs credits line false true true h = refl
outside_step prs credits line false true false h = refl
outside_step prs credits line false false unlisted h = refl

line_outside :
    (prs credits : List Text) (line : Text)
    → is_new_heading line ≡ false
    → scan_line (sections prs credits false) line
      ≡ sections (if is_listed_item line then prs ++ dashed line ∷ [] else prs) credits false
unfolding scan_line scan_item
line_outside prs credits line h = rw (h) (
    outside_step prs credits line (starts_with (codes "**Full Changelog**") line) (is_item line)
      (is_unlisted line) (full_not_item line))

inside_step :
    (prs credits : List Text) (line : Text) (full item : Bool)
    → (full ≡ true → item ≡ false)
    → (if full || not item
        then sections prs credits true
        else sections prs (credits ++ line ∷ []) true)
      ≡ sections prs (if item then credits ++ line ∷ [] else credits) true
inside_step prs credits line true true h = ground (arith, h refl)
inside_step prs credits line true false h = refl
inside_step prs credits line false true h = refl
inside_step prs credits line false false h = refl

not_new : (line : Text) → is_heading line ≡ false → is_new_heading line ≡ false
not_new line h = elim (Bool-cases (is_new_heading line)) [
  | inl e ↦ e ∙ sym (new_heading_is_heading line e) ∙ h
  | inr e ↦ e
]

line_inside :
    (prs credits : List Text) (line : Text)
    → is_heading line ≡ false
    → scan_line (sections prs credits true) line
      ≡ sections prs (if is_item line then credits ++ line ∷ [] else credits) true
unfolding scan_line scan_item
line_inside prs credits line h =
    let old : is_new_heading line ≡ false = not_new line h in
    rw (old, h)
      (inside_step prs credits line (starts_with (codes "**Full Changelog**") line) (is_item line)
        (full_not_item line))

-- Items put behind a list one after another.
append_if :
    {A B : Type 0} (f : A → B) (b : Bool) (xs : List B) (x : A) (ys : List A)
    → (if b then xs ++ f x ∷ [] else xs) ++ map f ys ≡ xs ++ map f (if b then x ∷ ys else ys)
append_if f true xs x ys = append_assoc xs (f x ∷ []) (map f ys)
append_if f false xs x ys = refl

scan-outside :
    (prs credits lines : List Text)
    → All (λ line. is_new_heading line ≡ false) lines
    → scan_lines (sections prs credits false) lines
      ≡ sections (prs ++ map dashed (filter is_listed_item lines)) credits false
unfolding scan_lines
scan-outside prs credits [] a = ap (λ ls. sections ls credits false) (sym (append-nil prs))
scan-outside prs credits (line ∷ lines) a =
    ap (λ s. scan_lines s lines) (line_outside prs credits line a.0)
    ∙ scan-outside (if is_listed_item line then prs ++ dashed line ∷ [] else prs) credits lines a.1
    ∙ ap (λ ls. sections ls credits false)
        (append_if dashed (is_listed_item line) prs line (filter is_listed_item lines))

scan-inside :
    (prs credits lines : List Text)
    → All (λ line. is_heading line ≡ false) lines
    → scan_lines (sections prs credits true) lines
      ≡ sections prs (credits ++ filter is_item lines) true
unfolding scan_lines
scan-inside prs credits [] a = ap (λ ls. sections prs ls true) (sym (append-nil credits))
scan-inside prs credits (line ∷ lines) a =
    ap (λ s. scan_lines s lines) (line_inside prs credits line a.0)
    ∙ scan-inside prs (if is_item line then credits ++ line ∷ [] else credits) lines a.1
    ∙ ap (λ ls. sections prs ls true) (items_if (is_item line) credits line (filter is_item lines))

scan-append :
    (s : GithubSections) (xs ys : List Text)
    → scan_lines s (xs ++ ys) ≡ scan_lines (scan_lines s xs) ys
unfolding scan_lines
scan-append s [] ys = refl
scan-append s (x ∷ xs) ys = scan-append (scan_line s x) xs ys

enters :
    (prs credits : List Text) (b : Bool) (line : Text)
    → is_new_heading line ≡ true
    → scan_line (sections prs credits b) line ≡ sections prs credits true
unfolding scan_line
enters prs credits b line h = ground arith

leaves :
    (prs credits : List Text) (line : Text)
    → is_heading line ≡ true
    → is_new_heading line ≡ false
    → scan_line (sections prs credits true) line ≡ sections prs credits false
unfolding scan_line scan_item
leaves prs credits line h k = ground (arith, heading_not_item line h)

extract-scan :
    (body : Text) → extract_github_sections (some body) ≡ scan_lines no_sections (split 10 body)
unfolding extract_github_sections scan_lines scan_line scan_item split starts_with after
extract-scan [] = refl
extract-scan (c ∷ body) = refl

-- Where a body's lines are some, a heading of the new contributors, some without a heading, another
-- heading, and more, the items between the headings are the new contributors', and the items
-- before and after, but those whose titles the notes leave out, are the changes, in their order.
pub extract_github_sections-parts :
    (body : Text) (before : List Text) (start : Text) (inside : List Text) (end : Text)
    (behind : List Text)
    → split 10 body ≡ before ++ start ∷ (inside ++ end ∷ behind)
    → All (λ line. is_new_heading line ≡ false) before
    → is_new_heading start ≡ true
    → All (λ line. is_heading line ≡ false) inside
    → is_heading end ≡ true
    → is_new_heading end ≡ false
    → All (λ line. is_new_heading line ≡ false) behind
    → extract_github_sections (some body) ≡ record {
      pr_lines =
          map dashed (filter is_listed_item before) ++ map dashed (filter is_listed_item behind);
      contributors = filter is_item inside;
      in_contributors = false;
    }
unfolding scan_lines
extract_github_sections-parts body before start inside end behind e b s i h n a =
    let prs : List Text = map dashed (filter is_listed_item before) in
    let new : List Text = filter is_item inside in
    extract-scan body
    ∙ ap (scan_lines no_sections) e
    ∙ scan-append no_sections before (start ∷ (inside ++ end ∷ behind))
    ∙ ap (λ t. scan_lines t (start ∷ (inside ++ end ∷ behind))) (scan-outside [] [] before b)
    ∙ ap (λ t. scan_lines t (inside ++ end ∷ behind)) (enters prs [] false start s)
    ∙ scan-append (sections prs [] true) inside (end ∷ behind)
    ∙ ap (λ t. scan_lines t (end ∷ behind)) (scan-inside prs [] inside i)
    ∙ ap (λ t. scan_lines t behind) (leaves prs new end h n)
    ∙ scan-outside prs new behind a
