-- ===== src/Relay/Settings.antt =====
-- frontend/src/components/settings/relay/relay-settings.tsx: the handlers of the page. The values of the
-- store are those of the last render; the parser of URLs is a parameter.
use alt_sendme.Prelude.{
  ℕ, suc, Bool, true, false, not, ◌&&◌, Text, Option, none, some, List, [], ◌∷◌, ◌++◌, length,
  is_truthy, is_some, add, put, ◌==◌, remove_at, leb, if◌then◌else◌,
}
use alt_sendme.Relay.Config.{
  RelayMode, default, custom, disabled, RelayFallback, RelayConfigArg, Url, trimmed_urls,
  relay_auth_token_for_ipc, is_valid_relay_url, is_cleartext, relay_fallback_from_radio_value,
}

pub data VerifyResult : Type 0 where
  checking ok failed : VerifyResult

pub data RelayToast : Type 0 where
  url_required url_invalid disabled_hint : RelayToast
  -- how many of how many were reached, and whether the token is named as a cause
  summary : ℕ → ℕ → Bool → RelayToast
  verified : Option (Text × ℕ) → RelayToast
  verify_failed : Text → RelayToast

pub record RelayPage : Type 0 where
  pub relay_mode : RelayMode
  pub relay_urls : List Text
  pub relay_auth_token : Text
  pub relay_fallback : RelayFallback
  pub is_testing : Bool
  pub verify_results : List (Text × VerifyResult)
  pub toasts : List RelayToast
  -- the calls of `verify_relays`
  pub verified_relays : List RelayConfigArg

abbrev pub toast : RelayToast → RelayPage → RelayPage
toast t r = record r { toasts = r.toasts ++ t ∷ [] }

unfoldable pub handle_mode_change : Bool → RelayMode → RelayPage → RelayPage
handle_mode_change is_web default r = record r { relay_mode = default }
handle_mode_change is_web disabled r = if is_web then r else record r { relay_mode = disabled }
handle_mode_change is_web custom r = record r {
  relay_mode = custom;
  relay_urls = if length r.relay_urls == 0 then [] ∷ [] else r.relay_urls;
}

unfoldable pub handle_fallback_change : Text → RelayPage → RelayPage
unfolding relay_fallback_from_radio_value
handle_fallback_change value r = record r { relay_fallback = relay_fallback_from_radio_value value }

unfoldable pub add_url : RelayPage → RelayPage
add_url r = record r { relay_urls = r.relay_urls ++ [] ∷ [] }

unfoldable pub remove_url : ℕ → RelayPage → RelayPage
remove_url i r = record r {
  relay_urls = if leb (length r.relay_urls) 1 then [] ∷ [] else remove_at i r.relay_urls;
}

abbrev pub find : (Text → Bool) → List Text → Option Text
find p [] = none
find p (x ∷ xs) = if p x then some x else find p xs

-- `[...new Set(urls)]`, from the set of the urls before
unfoldable pub unique_from : List Text → List Text → List Text
unfolding add
unique_from set [] = set
unique_from set (url ∷ urls) = unique_from (add url set) urls

abbrev mark_all : VerifyResult → List Text → List (Text × VerifyResult) → List (Text × VerifyResult)
mark_all result [] results = results
mark_all result (url ∷ urls) results = mark_all result urls (put url result results)

-- The configuration with which a relay is verified.
abbrev pub config_of : Option Text → RelayFallback → Text → RelayConfigArg
config_of token fallback url = record {
  mode = custom;
  urls = url ∷ [];
  auth_token = token;
  fallback = fallback;
}

abbrev pub configs : Option Text → RelayFallback → List Text → List RelayConfigArg
configs token fallback [] = []
configs token fallback (url ∷ urls) = config_of token fallback url ∷ configs token fallback urls

abbrev pub begin_verify : Option Text → List Text → RelayPage → RelayPage
begin_verify token urls r = record r {
  is_testing = true;
  verify_results = mark_all checking urls r.verify_results;
  verified_relays = r.verified_relays ++ configs token r.relay_fallback urls;
}

abbrev pub no_urls : List Text → Bool
no_urls [] = true
no_urls (url ∷ urls) = false

module _ (parse : Text → Option Url) where
  abbrev pub is_invalid : Text → Bool
  is_invalid url = not (is_valid_relay_url parse url)

  -- `verifyCustomRelays`, up to its `await`
  unfoldable pub verify_custom_relays : RelayPage → RelayPage
  unfolding trimmed_urls is_valid_relay_url is_cleartext unique_from put
  verify_custom_relays r =
      let trimmed = trimmed_urls r.relay_urls in
      let token = relay_auth_token_for_ipc r.relay_auth_token in
      if no_urls trimmed
      then toast url_required r
      else if is_truthy (find is_invalid trimmed)
      then toast url_invalid r
      else if is_some token && is_truthy (find (is_cleartext parse) trimmed)
      then toast url_invalid r
      else begin_verify token (unique_from [] trimmed) r

  abbrev default_config : RelayPage → RelayConfigArg
  default_config r = record {
    mode = r.relay_mode;
    urls = [];
    auth_token = none;
    fallback = r.relay_fallback;
  }

  -- `handleTestConnection`, up to its `await`
  abbrev pub test_in_mode : RelayMode → RelayPage → RelayPage
  test_in_mode disabled r = toast disabled_hint r
  test_in_mode custom r = verify_custom_relays r
  test_in_mode default r = record r {
    is_testing = true;
    verified_relays = r.verified_relays ++ default_config r ∷ [];
  }

  unfoldable pub handle_test_connection : RelayPage → RelayPage
  unfolding verify_custom_relays
  handle_test_connection r = test_in_mode r.relay_mode r

-- The answers to the calls, in the order of the urls.
abbrev count_ok : List (Text × Bool) → ℕ
count_ok [] = 0
count_ok ((url, reached) ∷ outcomes) =
    if reached then suc (count_ok outcomes) else count_ok outcomes

abbrev mark_outcomes : List (Text × Bool) → List (Text × VerifyResult) → List (Text × VerifyResult)
mark_outcomes [] results = results
mark_outcomes ((url, reached) ∷ outcomes) results =
    mark_outcomes outcomes (put url (if reached then ok else failed) results)

-- The rest of `verifyCustomRelays`; the token is the one that it was begun with.
unfoldable pub finish_verify : Option Text → List (Text × Bool) → RelayPage → RelayPage
unfolding put
finish_verify token outcomes r =
    let all_ok = count_ok outcomes == length outcomes in
    toast (summary (count_ok outcomes) (length outcomes) (not all_ok && is_some token))
      (record r { verify_results = mark_outcomes outcomes r.verify_results; is_testing = false })

-- The rest of `handleTestConnection` in the default mode.
unfoldable pub finish_test : Option (Text × ℕ) → RelayPage → RelayPage
finish_test found r = toast (verified found) (record r { is_testing = false })

unfoldable pub fail_test : Text → RelayPage → RelayPage
fail_test text r = toast (verify_failed text) (record r { is_testing = false })
