-- ===== src/Relay/Tests.antt =====
-- A page with a custom relay and a token, and a parser that knows one URL.
use alt_sendme.Prelude.{
  ◌++◌, ◌≤◌, length, is_space, ◌≡◌, refl, false, Text, codes, text_eq, Option, none, some, [], ◌∷◌,
  All, if◌then◌else◌,
}
use alt_sendme.Relay.Editing.{
  max_relay_url_length, is_disallowed_relay_url_char, chars, kept_chars, sanitize_relay_url_input,
}
use alt_sendme.Relay.Sanitized.{Clean, sanitize_relay_url_input-Clean}
use alt_sendme.Relay.Config.{Url, custom, strict}
use alt_sendme.Relay.Settings.{RelayPage, handle_test_connection}
use alt_sendme.Relay.Regions.{country, inherited, get_relay_region}
use alt_sendme.Relay.Secure.{IsSecure, handle_test_connection-IsSecure}

abbrev parse : Text → Option Url
parse url =
    if text_eq url (codes "https://a.b")
    then some
        (record { protocol = codes "https:"; hostname = codes "a.b"; username = []; password = [] })
    else none

abbrev page : RelayPage
page = record {
  relay_mode = custom;
  relay_urls = codes " https://a.b" ∷ [] ∷ [];
  relay_auth_token = codes "k";
  relay_fallback = strict;
  is_testing = false;
  verify_results = [];
  toasts = [];
  verified_relays = [];
}

handle_test_connection-IsSecure_example :
    All (IsSecure parse) (handle_test_connection parse page).verified_relays
handle_test_connection-IsSecure_example = handle_test_connection-IsSecure parse page tt

-- A parser that takes the URL for the hostname.
abbrev host_only : Text → Option Url
host_only url =
    some (record { protocol = codes "https:"; hostname = url; username = []; password = [] })

region_found :
    get_relay_region (λ name. name) host_only (codes "euc1-1.relay.example.com")
    ≡ some (record { region_code = codes "euc1"; country_code = country (codes "DE") })
unfolding get_relay_region text_eq
region_found = refl

-- A hostname that is the name of an inherited property has a region, without a country.
region_inherited :
    get_relay_region (λ name. name) host_only (codes "constructor.example.com")
    ≡ some (record { region_code = codes "constructor"; country_code = inherited })
unfolding get_relay_region text_eq
region_inherited = refl

-- A space, a URL, a tab and a character of two units.
abbrev typed : Text
typed = 32 ∷ codes "https://r" ++ 9 ∷ 0xd83d ∷ 0xde00 ∷ []

typed_sanitized : sanitize_relay_url_input typed ≡ codes "https://r" ++ 0xd83d ∷ 0xde00 ∷ []
unfolding sanitize_relay_url_input chars kept_chars is_disallowed_relay_url_char is_space
typed_sanitized = refl

sanitize_relay_url_input-Clean_example :
    Clean (sanitize_relay_url_input typed)
    × (length (chars (sanitize_relay_url_input typed)) ≤ max_relay_url_length)
    × (sanitize_relay_url_input (sanitize_relay_url_input typed) ≡ sanitize_relay_url_input typed)
    × (Clean typed
        → length (chars typed) ≤ max_relay_url_length
        → sanitize_relay_url_input typed ≡ typed)
sanitize_relay_url_input-Clean_example = sanitize_relay_url_input-Clean typed
