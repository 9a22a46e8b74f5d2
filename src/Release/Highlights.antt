-- ===== src/Release/Highlights.antt =====
-- scripts/generate-release-notes.js: which groups the highlights show.
use mathlib.Core.List.{Permᴰ}
use alt_sendme.Prelude.{◌<◌, ◌≤◌, ◌≡◌, Text, List, [], ◌∷◌, ◌++◌, map, length, All}
use alt_sendme.Release.Sections.{Highlight}

-- A group has as many commits as each of those that come behind it.
abbrev pub Heavier : Highlight → Highlight → Type 0
Heavier a b = b.weight ≤ a.weight

abbrev pub Descending : List Highlight → Type 0
Descending [] = Unit
Descending (h ∷ hs) = All (Heavier h) hs × Descending hs

-- What is taken and what is left of highlights.
pub record Chosen (all : List Highlight) (texts : List Text) : Type 0 where
  pub shown : List Highlight
  pub hidden : List Highlight
  pub texts_shown : texts ≡ map (λ h. h.text) shown
  pub none_lost : Permᴰ (shown ++ hidden) all
  pub at_most_six : length shown ≤ 6
  pub full : 0 < length hidden → length shown ≡ 6
  pub descending : Descending (shown ++ hidden)
