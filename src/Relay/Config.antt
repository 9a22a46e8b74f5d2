-- ===== src/Relay/Config.antt =====
-- frontend/src/lib/relay-config.ts, relay-auth-token.ts, relay-url-validation.ts,
-- relay-change-warning.ts and relay-fallback-options.ts.
use alt_sendme.Prelude.{
  Bool, true, false, not, ◌&&◌, ◌||◌, Text, text_eq, codes, Option, none, some, List, [], ◌∷◌,
  length, trim, is_empty, ltb, if◌then◌else◌,
}

pub data RelayMode : Type 0 where
  default custom disabled : RelayMode

pub data RelayFallback : Type 0 where
  strict public : RelayFallback

pub record RelayConfigArg : Type 0 where
  pub mode : RelayMode
  pub urls : List Text
  pub auth_token : Option Text
  pub fallback : RelayFallback

pub record RelayConfigInput : Type 0 where
  pub relay_mode : RelayMode
  pub relay_urls : List Text
  pub relay_auth_token : Text
  pub relay_fallback : RelayFallback

-- `relayUrls.map((url) => url.trim()).filter(Boolean)`
unfoldable pub trimmed_urls : List Text → List Text
unfolding trim
trimmed_urls [] = []
trimmed_urls (url ∷ urls) =
    let rest = trimmed_urls urls in if is_empty (trim url) then rest else trim url ∷ rest

abbrev pub relay_auth_token_for_ipc : Text → Option Text
relay_auth_token_for_ipc [] = none
relay_auth_token_for_ipc (c ∷ value) = some (c ∷ value)

unfoldable pub effective_relay_mode : Bool → RelayMode → RelayMode
effective_relay_mode is_web default = default
effective_relay_mode is_web custom = custom
effective_relay_mode is_web disabled = if is_web then default else disabled

abbrev pub is_custom : RelayMode → Bool
is_custom default = false
is_custom custom = true
is_custom disabled = false

unfoldable pub build_relay_config_arg : Bool → RelayConfigInput → RelayConfigArg
unfolding trimmed_urls effective_relay_mode
build_relay_config_arg is_web input =
    let mode = effective_relay_mode is_web input.relay_mode in
    record {
      mode = mode;
      urls = if is_custom mode then trimmed_urls input.relay_urls else [];
      auth_token = if is_custom mode then relay_auth_token_for_ipc input.relay_auth_token else none;
      fallback = input.relay_fallback;
    }

-- What `new URL(url)` gives, `none` where it throws; the parser is a parameter.
pub record Url : Type 0 where
  pub protocol : Text
  pub hostname : Text
  pub username : Text
  pub password : Text

abbrev is_loopback_host : Text → Bool
is_loopback_host hostname =
    text_eq hostname (codes "localhost")
    || text_eq hostname (codes "127.0.0.1")
    || text_eq hostname (codes "[::1]")

abbrev pub is_https : Url → Bool
is_https url = text_eq url.protocol (codes "https:")

abbrev is_valid : Option Url → Bool
is_valid none = false
is_valid (some url) =
    if is_empty url.hostname
    then false
    else if not (is_empty url.username) || not (is_empty url.password)
    then false
    else is_https url || (text_eq url.protocol (codes "http:") && is_loopback_host url.hostname)

unfoldable pub is_valid_relay_url : (Text → Option Url) → Text → Bool
unfolding text_eq
is_valid_relay_url parse url =
    if is_empty url || ltb 2048 (length url) then false else is_valid (parse url)

-- `new URL(url).protocol !== 'https:'`; the URL is valid where this is asked.
unfoldable pub is_cleartext : (Text → Option Url) → Text → Bool
unfolding text_eq
is_cleartext parse url = elim (parse url) [ none ↦ true | some u ↦ not (is_https u) ]

abbrev same_mode : RelayMode → RelayMode → Bool
same_mode default default = true
same_mode custom custom = true
same_mode disabled disabled = true
same_mode _ _ = false

abbrev same_fallback : RelayFallback → RelayFallback → Bool
same_fallback strict strict = true
same_fallback public public = true
same_fallback _ _ = false

abbrev warned : RelayMode → Option RelayMode
warned default = none
warned custom = some custom
warned disabled = some disabled

-- `getRelayChangeWarningType`: 'disabled', 'custom' or `null`
unfoldable pub get_relay_change_warning_type :
    RelayMode → RelayFallback → RelayMode → RelayFallback → Option RelayMode
get_relay_change_warning_type initial_mode initial_fallback mode fallback =
    if not (same_mode mode initial_mode)
    then warned mode
    else if is_custom initial_mode
        && is_custom mode
        && not (same_fallback fallback initial_fallback)
    then some custom
    else none

-- `relayFallbackFromRadioValue`
unfoldable pub relay_fallback_from_radio_value : Text → RelayFallback
unfolding text_eq
relay_fallback_from_radio_value value = if text_eq value (codes "public") then public else strict
