-- ===== src/Eta.antt =====
-- frontend/src/utils/etaUtils.ts: the moving average of the speed, and the time that is left,
-- with its text.
use alt_sendme.Prelude.{
  ℕ, zero, suc, not, Text, codes, ◌||◌, Option, none, some, List, [], ◌∷◌, ◌++◌, ltb, length,
  if◌then◌else◌,
}
use mathlib.Core.List.{foldl}
use alt_sendme.Transfer.{Numbers}

abbrev pub max_samples : ℕ
max_samples = 10

-- Drops the first element: `shift()`.
abbrev shift {ℓ} : {A : Type ℓ} → List A → List A
shift [] = []
shift (x ∷ xs) = xs

-- `SpeedAverager.addSample`, over the list `speeds`; every averager of the program has ten samples.
unfoldable pub add_sample {ℓ} : {A : Type ℓ} → List A → A → List A
add_sample speeds speed =
    let pushed = speeds ++ speed ∷ [] in
    if ltb max_samples (length pushed) then shift pushed else pushed

-- The samples after a series of calls, oldest first.
unfoldable pub add_samples {ℓ} : {A : Type ℓ} → List A → List A → List A
unfolding add_sample
add_samples speeds [] = speeds
add_samples speeds (x ∷ xs) = add_samples (add_sample speeds x) xs

module _ {N : Type 0} (num : Numbers N) where
  -- `length`, as a number of the language
  unfoldable pub number_of : ℕ → N
  number_of zero = num.zero
  number_of (suc n) = num.add num.one (number_of n)

  -- `SpeedAverager.getAverage`
  unfoldable pub get_average : List N → N
  unfolding number_of
  get_average [] = num.zero
  get_average (x ∷ xs) = num.div (foldl num.add num.zero (x ∷ xs)) (number_of (length (x ∷ xs)))

  -- `calculateETA`
  unfoldable pub calculate_eta : N → N → Option N
  calculate_eta bytes_remaining speed_bps =
      if num.le speed_bps num.zero || num.le bytes_remaining num.zero
      then none
      else some (num.div bytes_remaining speed_bps)

  -- `formatETA`, with the rounding, the remainder and the printing of numbers.
  module _ (floor : N → N) (remainder : N → N → N) (show : N → Text) (sixty : N) where
    abbrev minutes_and_seconds : N → N → Text
    minutes_and_seconds minutes remaining_seconds =
        if num.gt minutes num.zero
        then show minutes ++ codes " min " ++ show remaining_seconds ++ codes " sec"
        else show remaining_seconds ++ codes " sec"

    unfoldable pub format_eta : N → Text
    format_eta seconds =
        if not (num.is_finite seconds) || num.gt num.zero seconds
        then codes "--"
        else minutes_and_seconds (floor (num.div seconds sixty)) (floor (remainder seconds sixty))
