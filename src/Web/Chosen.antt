-- ===== src/Web/Chosen.antt =====
-- frontend/src/lib/web-send-items.ts: a selection of files is sent as it was chosen.
use alt_sendme.Prelude.{
  ℕ, ◌≡◌, ◌∙◌, false, Text, some, List, [], ◌∷◌, ◌++◌, map, inr, All, arith, append_assoc,
  append-nil,
}
use alt_sendme.Web.Files.{WebFile, Files, get_web_file, is_web_directory}
use alt_sendme.Web.Send.{
  Payload, web_send_entry_type, entries_of, collect_from, collect_web_send_payload,
}

abbrev pub bytes_of : Text × WebFile → List ℕ
bytes_of (path, f) = f.bytes

abbrev pub path_of : Text × WebFile → Text
path_of (path, f) = path

-- The path is that of a file, and of no folder.
abbrev pub IsChosen : Files → Text × WebFile → Type 0
IsChosen s (path, f) = (is_web_directory s path ≡ false) × (get_web_file s path ≡ some f)

entries_of-chosen :
    (s : Files) (c : Text × WebFile) → IsChosen s c → entries_of s (path_of c) ≡ inr (c ∷ [])
unfolding entries_of
entries_of-chosen s (path, f) h = rw (h.0, h.1)

collect_from-chosen :
    (s : Files) (p : Payload) (chosen : List (Text × WebFile))
    → All (IsChosen s) chosen
    → collect_from s p (map path_of chosen)
      ≡ inr (record {
        names = p.names ++ map path_of chosen;
        bytes_list = p.bytes_list ++ map bytes_of chosen;
      })
unfolding collect_from
collect_from-chosen s p [] h = rw (append-nil p.names, append-nil p.bytes_list)
collect_from-chosen s p ((path, f) ∷ chosen) h =
    let next : Payload = record {
      names = p.names ++ path ∷ [];
      bytes_list = p.bytes_list ++ f.bytes ∷ [];
    } in
    let this : collect_from s p (path ∷ map path_of chosen)
        ≡ collect_from s next (map path_of chosen) =
      rw (entries_of-chosen s (path, f) h.0, collect_from) in
    let rest : collect_from s next (map path_of chosen)
        ≡ inr (record {
          names = p.names ++ path ∷ map path_of chosen;
          bytes_list = p.bytes_list ++ f.bytes ∷ map bytes_of chosen;
        }) =
      rw
        (
          ← append_assoc p.names (path ∷ []) (map path_of chosen),
          ← append_assoc p.bytes_list (f.bytes ∷ []) (map bytes_of chosen),
        )
        (collect_from-chosen s next chosen h.1) in
    this ∙ rest

-- A selection of at least one file, all of them still registered, is collected in its order.
pub collect_web_send_payload-chosen :
    (s : Files) (c : Text × WebFile) (chosen : List (Text × WebFile))
    → All (IsChosen s) (c ∷ chosen)
    → collect_web_send_payload s (map path_of (c ∷ chosen))
      ≡ inr (
        record { names = map path_of (c ∷ chosen); bytes_list = map bytes_of (c ∷ chosen) },
        web_send_entry_type s (map path_of (c ∷ chosen)),
      )
unfolding collect_web_send_payload
collect_web_send_payload-chosen s c chosen h =
    rw (collect_from-chosen s (record { names = []; bytes_list = [] }) (c ∷ chosen) h)
      (ground arith)
