-- ===== src/Relay/Regions.antt =====
-- frontend/src/lib/relay.ts: the country of a relay by its URL, and relay-fallback-toast.ts.
use alt_sendme.Prelude.{
  ◌||◌, Text, text_eq, codes, Option, none, some, List, [], ◌∷◌, head?, or_else, split, trim,
  is_empty, if◌then◌else◌,
}
use alt_sendme.Relay.Config.{Url}

-- What the table gives: a country, or what every object inherits.
pub data Country : Type 0 where
  country : Text → Country
  inherited : Country

pub record RelayRegion : Type 0 where
  pub region_code : Text
  pub country_code : Country

abbrev countries : List (Text × Text)
countries =
    (codes "use1", codes "US")
    ∷ (codes "use2", codes "US")
    ∷ (codes "usw1", codes "US")
    ∷ (codes "usw2", codes "US")
    ∷ (codes "cac1", codes "CA")
    ∷ (codes "sae1", codes "BR")
    ∷ (codes "euw1", codes "IE")
    ∷ (codes "euw2", codes "GB")
    ∷ (codes "euw3", codes "FR")
    ∷ (codes "euc1", codes "DE")
    ∷ (codes "euc2", codes "DE")
    ∷ (codes "eun1", codes "SE")
    ∷ (codes "eus1", codes "IT")
    ∷ (codes "eus2", codes "ES")
    ∷ (codes "aps1", codes "IN")
    ∷ (codes "aps2", codes "IN")
    ∷ (codes "apse1", codes "SG")
    ∷ (codes "apse2", codes "AU")
    ∷ (codes "apse3", codes "ID")
    ∷ (codes "apne1", codes "JP")
    ∷ (codes "apne2", codes "KR")
    ∷ (codes "apne3", codes "JP")
    ∷ (codes "afs1", codes "ZA")
    ∷ (codes "mes1", codes "BH")
    ∷ (codes "mec1", codes "AE")
    ∷ []

abbrev listed : List (Text × Text) → Text → Option Country
listed [] token = none
listed ((code, name) ∷ rest) token =
    if text_eq code token then some (country name) else listed rest token

-- `RELAY_REGION_COUNTRY[token]` for a token in lower case: of the names that a JavaScript object
-- inherits, two have no capital.
unfoldable pub relay_region_country : Text → Option Country
unfolding text_eq
relay_region_country token =
    if text_eq token (codes "constructor") || text_eq token (codes "__proto__")
    then some inherited
    else listed countries token

module _ (lower : Text → Text) (parse : Text → Option Url) where
  abbrev token_of : Text → Text
  token_of hostname =
      lower (or_else (head? (split b'-' (or_else (head? (split b'.' hostname)) []))) [])

  abbrev region_of : Text → Option Country → Option RelayRegion
  region_of token none = none
  region_of token (some found) = some (record { region_code = token; country_code = found })

  abbrev region_at : Option Url → Option RelayRegion
  region_at none = none
  region_at (some url) =
      let token = token_of url.hostname in
      if is_empty token then none else region_of token (relay_region_country token)

  -- `getRelayRegion`
  unfoldable pub get_relay_region : Text → Option RelayRegion
  unfolding trim split relay_region_country
  get_relay_region url = region_at (parse (trim url))

-- `relayFallbackToastDescriptionKey`
unfoldable pub relay_fallback_toast_description_key : Text → Option Text
unfolding text_eq
relay_fallback_toast_description_key payload =
    if text_eq payload (codes "send")
    then some (codes "footer.relay.fellBackToastSend")
    else if text_eq payload (codes "receive")
    then some (codes "footer.relay.fellBackToastReceive")
    else none
