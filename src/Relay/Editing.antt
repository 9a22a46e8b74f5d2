-- ===== src/Relay/Editing.antt =====
-- frontend/src/components/settings/relay/relay-settings.tsx: the URL of a relay is edited in its row.
use alt_sendme.Prelude.{
  ℕ, zero, suc, Bool, true, ◌&&◌, ◌||◌, Text, List, [], ◌∷◌, ◌++◌, leb, is_space, if◌then◌else◌,
}
use alt_sendme.Relay.Config.{RelayMode, default, custom, disabled}
use alt_sendme.Relay.Settings.{RelayPage}

abbrev pub max_relay_url_length : ℕ
max_relay_url_length = 2048

-- `isDisallowedRelayUrlChar`, by the first unit of a character.
unfoldable pub is_disallowed_relay_url_char : ℕ → Bool
unfolding is_space
is_disallowed_relay_url_char code =
    leb code 0x1f || (leb 0x7f code && leb code 0x9f) || is_space code

abbrev pub is_pair_of_units : ℕ → ℕ → Bool
is_pair_of_units c d = leb 0xd800 c && leb c 0xdbff && leb 0xdc00 d && leb d 0xdfff

-- The characters of a text, as `for … of` gives them: a pair of surrogates is one.
unfoldable pub chars : Text → List Text
chars [] = []
chars (c ∷ []) = (c ∷ []) ∷ []
chars (c ∷ d ∷ s) =
    let joined = chars s in
    let alone = chars (d ∷ s) in
    if is_pair_of_units c d then (c ∷ d ∷ []) ∷ joined else (c ∷ []) ∷ alone

abbrev pub is_dropped : Text → Bool
is_dropped [] = true
is_dropped (c ∷ s) = is_disallowed_relay_url_char c

-- The loop of `sanitizeRelayUrlInput`, with room for so many characters more.
unfoldable pub kept_chars : ℕ → List Text → List Text
unfolding is_disallowed_relay_url_char
kept_chars room [] = []
kept_chars zero (char ∷ cs) = []
kept_chars (suc room) (char ∷ cs) =
    let dropping = kept_chars (suc room) cs in
    let keeping = kept_chars room cs in if is_dropped char then dropping else char ∷ keeping

-- `sanitized.join('')`
abbrev pub joined : List Text → Text
joined [] = []
joined (char ∷ cs) = char ++ joined cs

unfoldable pub sanitize_relay_url_input : Text → Text
unfolding chars kept_chars
sanitize_relay_url_input value = joined (kept_chars max_relay_url_length (chars value))

-- `next[index] = value`, for the index of a row.
abbrev pub set_at : ℕ → Text → List Text → List Text
set_at i value [] = []
set_at zero value (url ∷ urls) = value ∷ urls
set_at (suc i) value (url ∷ urls) = url ∷ set_at i value urls

unfoldable pub update_url : ℕ → Text → RelayPage → RelayPage
unfolding sanitize_relay_url_input
update_url i value r = record r {
  relay_urls = set_at i (sanitize_relay_url_input value) r.relay_urls;
}

-- The effect that takes the mode `disabled` back in the browser.
unfoldable pub leave_disabled : Bool → RelayMode → RelayMode
leave_disabled is_web default = default
leave_disabled is_web custom = custom
leave_disabled is_web disabled = if is_web then default else disabled

-- The effect that keeps an id for each row; `fresh` gives the random ids.
unfoldable pub sync_row_ids : (ℕ → Text) → ℕ → List Text → List Text
sync_row_ids fresh zero ids = []
sync_row_ids fresh (suc rows) [] = fresh rows ∷ sync_row_ids fresh rows []
sync_row_ids fresh (suc rows) (id ∷ ids) = id ∷ sync_row_ids fresh rows ids
