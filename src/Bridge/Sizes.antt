-- ===== src/Bridge/Sizes.antt =====
-- frontend/src/lib/platform-api.ts with web-send-items.ts: the size that is shown is the size that is sent.
use mathlib.Core.Sum.{inl-ne-inr}
use alt_sendme.Prelude.{
  ℕ, ◌+◌, ◌≡◌, refl, sym, ap, ◌∙◌, Text, List, [], ◌∷◌, ◌++◌, length, leb, ◌⊎◌, inl, inr,
  Bool-cases, Option-cases, arith,
}
use alt_sendme.Web.Files.{
  WebFile, Files, get_web_file, is_web_directory, list_web_file_entries_under_path,
}
use alt_sendme.Web.Registered.{Disjoint}
use alt_sendme.Web.Send.{
  WebSendEntryType, SendError, Payload, push_entries, collect_web_send_payload, collect_from,
  entries_of, entries_of_folder, checked, web_send_entry_type,
}
use alt_sendme.Web.Sent.{Sum-cases}
use alt_sendme.Bridge.Stub.{sum_sizes, file_size_of}

-- How many bytes a payload has.
abbrev pub total : List (List ℕ) → ℕ
total [] = 0
total (bytes ∷ contents) = length bytes + total contents

total-append : (xs ys : List (List ℕ)) → total (xs ++ ys) ≡ total xs + total ys
total-append [] ys = omega arith
total-append (x ∷ xs) ys = omega (arith, total-append xs ys)

sum_sizes_from :
    (n : ℕ) (entries : List (Text × WebFile)) → sum_sizes n entries ≡ n + sum_sizes 0 entries
sum_sizes_from n [] = omega arith
sum_sizes_from n ((path, f) ∷ entries) = omega (
  arith,
  sum_sizes_from (n + length f.bytes) entries,
  sum_sizes_from (0 + length f.bytes) entries,
)

push_entries-total :
    (p : Payload) (entries : List (Text × WebFile))
    → total (push_entries p entries).bytes_list ≡ total p.bytes_list + sum_sizes 0 entries
push_entries-total p [] = omega arith
push_entries-total p ((path, f) ∷ entries) = omega (
  arith,
  push_entries-total
      (record { names = p.names ++ path ∷ []; bytes_list = p.bytes_list ++ f.bytes ∷ [] }) entries,
  total-append p.bytes_list (f.bytes ∷ []),
  sum_sizes_from (0 + length f.bytes) entries,
)

abbrev empty_payload : Payload
empty_payload = record { names = []; bytes_list = [] }

-- The bytes of what was collected; nothing where it failed.
abbrev bytes_of : SendError ⊎ (Payload × WebSendEntryType) → List (List ℕ)
bytes_of (inl error) = []
bytes_of (inr (p, type)) = p.bytes_list

abbrev collected : SendError ⊎ List (Text × WebFile) → SendError ⊎ Payload
collected (inl error) = inl error
collected (inr entries) = inr (push_entries empty_payload entries)

-- The entries, none where there is an error.
abbrev entries_or_none : SendError ⊎ List (Text × WebFile) → List (Text × WebFile)
entries_or_none (inl error) = []
entries_or_none (inr entries) = entries

collect_from-one :
    (s : Files) (path : Text)
    → collect_from s empty_payload (path ∷ []) ≡ collected (entries_of s path)
unfolding collect_from
collect_from-one s path = elim (Sum-cases (entries_of s path)) [
  | inl (error, e) ↦ rw (e, collect_from) refl
  | inr (entries, e) ↦ rw (e, collect_from) refl
]

collect_one :
    (s : Files) (path : Text)
    → collect_web_send_payload s (path ∷ [])
      ≡ checked (web_send_entry_type s (path ∷ [])) (collected (entries_of s path))
unfolding collect_web_send_payload
collect_one s path = rw (collect_from-one s path) refl

checked-total :
    (o : SendError ⊎ List (Text × WebFile)) (kind type : WebSendEntryType) (p : Payload)
    → checked kind (collected o) ≡ inr (p, type)
    → total p.bytes_list ≡ sum_sizes 0 (entries_or_none o)
checked-total (inl error) kind type p e = absurd (inl-ne-inr e)
checked-total (inr entries) kind type p e =
    let q = push_entries empty_payload entries in
    elim (Bool-cases (leb (length q.names) 0)) [
      | inl none_named ↦ absurd (inl-ne-inr (rw (none_named) at e))
      | inr named ↦
          ap (λ o. total (bytes_of o)) (sym (rw (named) at e))
          ∙ omega (arith, push_entries-total empty_payload entries)
    ]

folder-entries :
    (path : Text) (listed : List (Text × WebFile))
    → entries_or_none (entries_of_folder path listed) ≡ listed
folder-entries path [] = refl
folder-entries path (entry ∷ entries) = refl

file_size_of-entries :
    (s : Files) (path : Text)
    → Disjoint s
    → file_size_of s path ≡ sum_sizes 0 (entries_or_none (entries_of s path))
unfolding file_size_of entries_of
file_size_of-entries s path d = elim (Bool-cases (is_web_directory s path)) [
  | inl folder ↦
      rw (d path folder, folder, folder-entries path (list_web_file_entries_under_path s path)) refl
  | inr single ↦ elim (Option-cases (get_web_file s path)) [
    | inl e ↦ rw (e, single) refl
    | inr (f, e) ↦ rw (e, single) (omega arith)
  ]
]

-- The size that is shown for a path is the number of bytes that are sent of it: if no path is a file
-- and a folder at once, and a selection of this one path can be sent, `get_file_size` gives the sum of
-- the lengths of the contents that `send_items` hands to the engine.
pub file_size_of-sent :
    (s : Files) (path : Text) (p : Payload) (type : WebSendEntryType)
    → Disjoint s
    → collect_web_send_payload s (path ∷ []) ≡ inr (p, type)
    → file_size_of s path ≡ total p.bytes_list
file_size_of-sent s path p type d e =
    file_size_of-entries s path d
    ∙ sym (
        checked-total (entries_of s path) (web_send_entry_type s (path ∷ [])) type p
          (sym (collect_one s path) ∙ e))
