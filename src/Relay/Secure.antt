-- ===== src/Relay/Secure.antt =====
-- frontend/src/components/settings/relay/relay-settings.tsx: what is sent to a relay that is tested.
use alt_sendme.Prelude.{
  ◌≡◌, refl, Bool, true, false, ◌&&◌, Text, trim, is_empty, is_truthy, is_some, Option, List, [],
  ◌∷◌, All, All-append, contains, add, arith, Bool-cases, inl, inr, if◌then◌else◌,
}
use alt_sendme.Relay.Config.{
  RelayMode, default, custom, disabled, RelayConfigArg, RelayFallback, Url, trimmed_urls,
  relay_auth_token_for_ipc, is_valid_relay_url, is_cleartext,
}
use alt_sendme.Relay.Settings.{
  RelayPage, toast, url_invalid, url_required, no_urls, find, unique_from, configs, begin_verify,
  is_invalid, verify_custom_relays, test_in_mode, handle_test_connection,
}

module _ (parse : Text → Option Url) where
  -- What may be sent: each url is valid, and with a token it is not plain HTTP.
  abbrev pub IsSecure : RelayConfigArg → Type 0
  IsSecure c =
      All
        (λ url.
          (is_valid_relay_url parse url ≡ true)
          × (is_some c.auth_token ≡ true → is_cleartext parse url ≡ false))
        c.urls

  find-All :
      (p : Text → Bool) (xs : List Text)
      → All (λ x. is_empty x ≡ false) xs
      → is_truthy (find p xs) ≡ false
      → All (λ x. p x ≡ false) xs
  find-All p [] h k = tt
  find-All p ([] ∷ xs) h k = let bad : true ≡ false = h.0 in ground (arith, bad)
  find-All p ((c ∷ x) ∷ xs) h k = elim (Bool-cases (p (c ∷ x))) [
    | inl e ↦ let bad : true ≡ false = rw (e) at k in ground (arith, bad)
    | inr e ↦ (e, find-All p xs (h.1) (rw (e) at k))
  ]

  trimmed_urls-All : (urls : List Text) → All (λ x. is_empty x ≡ false) (trimmed_urls urls)
  unfolding trimmed_urls
  trimmed_urls-All [] = tt
  trimmed_urls-All (url ∷ urls) = elim (Bool-cases (is_empty (trim url))) [
    | inl e ↦ rw (e) (trimmed_urls-All urls)
    | inr e ↦ rw (e) (e, trimmed_urls-All urls)
  ]

  module _ (P : Text → Type 0) where
    add-All : (url : Text) (set : List Text) → P url → All P set → All P (add url set)
    unfolding add
    add-All url set h k = elim (Bool-cases (contains url set)) [
      | inl e ↦ rw (e) k
      | inr e ↦ rw (e) (All-append P set (url ∷ []) k (h, tt))
    ]

    unique_from-All : (set urls : List Text) → All P set → All P urls → All P (unique_from set urls)
    unfolding unique_from
    unique_from-All set [] h k = h
    unique_from-All set (url ∷ urls) h k =
        unique_from-All (add url set) urls (add-All url set (k.0) h) (k.1)

  configs-IsSecure :
      (token : Option Text) (fallback : RelayFallback) (urls : List Text)
      → All
          (λ url.
            (is_valid_relay_url parse url ≡ true)
            × (is_some token ≡ true → is_cleartext parse url ≡ false))
          urls
      → All IsSecure (configs token fallback urls)
  configs-IsSecure token fallback [] h = tt
  configs-IsSecure token fallback (url ∷ urls) h =
      ((h.0, tt), configs-IsSecure token fallback urls (h.1))

  checked-All :
      (token : Option Text) (urls : List Text)
      → All (λ url. is_invalid parse url ≡ false) urls
      → (is_some token ≡ true → All (λ url. is_cleartext parse url ≡ false) urls)
      → All
          (λ url.
            (is_valid_relay_url parse url ≡ true)
            × (is_some token ≡ true → is_cleartext parse url ≡ false))
          urls
  checked-All token [] h k = tt
  checked-All token (url ∷ urls) h k =
      ((ground (arith, h.0), λ e. (k e).0), checked-All token urls (h.1) (λ e. (k e).1))

  begun-IsSecure :
      (token : Option Text) (urls : List Text) (r : RelayPage)
      → All IsSecure r.verified_relays
      → is_truthy (find (is_invalid parse) (trimmed_urls urls)) ≡ false
      → (is_some token && is_truthy (find (is_cleartext parse) (trimmed_urls urls))) ≡ false
      → All IsSecure (begin_verify token (unique_from [] (trimmed_urls urls)) r).verified_relays
  begun-IsSecure token urls r v h k =
      let named = trimmed_urls-All urls in
      let valid = find-All (is_invalid parse) (trimmed_urls urls) named h in
      let secret : is_some token ≡ true
          → All (λ url. is_cleartext parse url ≡ false) (trimmed_urls urls) =
        λ e. find-All (is_cleartext parse) (trimmed_urls urls) named (rw (e) at k) in
      All-append IsSecure r.verified_relays _ v (
        configs-IsSecure token r.relay_fallback (unique_from [] (trimmed_urls urls)) (
          unique_from-All _ [] (trimmed_urls urls) tt
            (checked-All token (trimmed_urls urls) valid secret)))

  guarded-IsSecure :
      (b : Bool) (p q : RelayPage)
      → All IsSecure p.verified_relays
      → (b ≡ false → All IsSecure q.verified_relays)
      → All IsSecure (if b then p else q).verified_relays
  guarded-IsSecure true p q v w = v
  guarded-IsSecure false p q v w = w refl

  custom-IsSecure :
      (r : RelayPage)
      → All IsSecure r.verified_relays
      → All IsSecure (verify_custom_relays parse r).verified_relays
  unfolding verify_custom_relays
  custom-IsSecure r v =
      let trimmed = trimmed_urls r.relay_urls in
      let token = relay_auth_token_for_ipc r.relay_auth_token in
      let bad = find (is_invalid parse) trimmed in
      let clear = find (is_cleartext parse) trimmed in
      let begun = begin_verify token (unique_from [] trimmed) r in
      let told = toast url_invalid r in
      let last = if is_some token && is_truthy clear then told else begun in
      guarded-IsSecure (no_urls trimmed) (toast url_required r)
        (if is_truthy bad then told else last) v
        (λ named. guarded-IsSecure (is_truthy bad) told last v (λ valid.
          guarded-IsSecure (is_some token && is_truthy clear) told begun v
            (λ secret. begun-IsSecure token r.relay_urls r v valid secret)))

  -- No token is sent in cleartext: if every call of `verify_relays` so far was secure, then so is every
  -- call after the connection is tested, in every mode and with any urls and token: its urls are
  -- valid, and if it has a token none of them is plain HTTP.
  pub handle_test_connection-IsSecure :
      (r : RelayPage)
      → All IsSecure r.verified_relays
      → All IsSecure (handle_test_connection parse r).verified_relays
  unfolding handle_test_connection
  handle_test_connection-IsSecure r v = tested r.relay_mode
    where
      tested : (mode : RelayMode) → All IsSecure (test_in_mode parse mode r).verified_relays
      tested disabled = v
      tested custom = custom-IsSecure r v
      tested default = All-append IsSecure r.verified_relays _ v (tt, tt)
