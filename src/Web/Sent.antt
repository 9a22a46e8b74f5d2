-- ===== src/Web/Sent.antt =====
-- frontend/src/lib/web-send-items.ts: what is sent are files of the selection, with their contents.
use mathlib.Core.Sum.{inl-ne-inr}
use alt_sendme.Prelude.{
  subst, ℕ, ◌≡◌, ◌<◌, refl, ap, ◌||◌, Text, text_eq, text_eq_iff, Option, none, some, List, [], ◌∷◌,
  ◌++◌, length, leb, ◌⊎◌, inl, inr, All, Bool-cases, arith, get, or_else,
}
use alt_sendme.Web.Files.{
  WebFile, Files, get_web_file, is_web_directory, entries_under, list_web_file_entries_under_path,
  starts_with,
}
use alt_sendme.Web.Send.{
  WebSendEntryType, SendError, Payload, web_send_entry_type, entries_of_folder, entries_of_file,
  entries_of, push_entries, collect_from, checked, collect_web_send_payload,
}

-- The entry of the path and the file is in the map.
abbrev pub Has : List (Text × WebFile) → Text → WebFile → Type 0
Has [] path file = ⊥
Has ((p, f) ∷ entries) path file = ((p ≡ path) × (f ≡ file)) ⊎ Has entries path file

-- The names and contents, in parallel, are those of files in the map.
abbrev pub AreFiles : List (Text × WebFile) → List Text → List (List ℕ) → Type 0
AreFiles files [] [] = Unit
AreFiles files [] (b ∷ bs) = ⊥
AreFiles files (n ∷ ns) [] = ⊥
AreFiles files (n ∷ ns) (b ∷ bs) =
    ((f : WebFile) × Has files n f × (f.bytes ≡ b)) × AreFiles files ns bs

abbrev EntriesIn : List (Text × WebFile) → List (Text × WebFile) → Type 0
EntriesIn files entries = All (λ (e : Text × WebFile). Has files e.0 e.1) entries

get-Has :
    (files : List (Text × WebFile)) (path : Text) (file : WebFile)
    → get path files ≡ some file
    → Has files path file
unfolding get
get-Has [] path file e = cc
get-Has ((p, f) ∷ files) path file e = elim (Bool-cases (text_eq p path)) [
  | inl same ↦ inl ((text_eq_iff p path).0 same, ap (λ o. or_else o f) (rw same at e))
  | inr other ↦ inr (get-Has files path file (rw other at e))
]

weaken :
    (files entries : List (Text × WebFile)) (entry : Text × WebFile)
    → EntriesIn files entries
    → EntriesIn (entry ∷ files) entries
weaken files [] entry h = tt
weaken files (e ∷ entries) entry h = (inr h.0, weaken files entries entry h.1)

entries_under-EntriesIn :
    (path : Text) (files : List (Text × WebFile)) → EntriesIn files (entries_under path files)
unfolding entries_under
entries_under-EntriesIn path [] = tt
entries_under-EntriesIn path ((p, f) ∷ files) =
    let rest =
      weaken files (entries_under path files) (p, f) (entries_under-EntriesIn path files) in
    elim (Bool-cases (text_eq p path || starts_with (path ++ b'/' ∷ []) p)) [
      | inl under ↦ rw under (inl (refl, refl), rest)
      | inr outside ↦ rw outside rest
    ]

abbrev right_or : {A B : Type 0} → A ⊎ B → B → B
right_or (inl a) d = d
right_or (inr b) d = b

pub Sum-cases : {A B : Type 0} (o : A ⊎ B) → ((a : A) × (o ≡ inl a)) ⊎ ((b : B) × (o ≡ inr b))
Sum-cases (inl a) = inl (a, refl)
Sum-cases (inr b) = inr (b, refl)

folder-EntriesIn :
    (files : List (Text × WebFile)) (path : Text) (listed entries : List (Text × WebFile))
    → EntriesIn files listed
    → entries_of_folder path listed ≡ inr entries
    → EntriesIn files entries
folder-EntriesIn files path [] entries h e = absurd (inl-ne-inr e)
folder-EntriesIn files path (x ∷ listed) entries h e =
    subst (EntriesIn files) (ap (λ o. right_or o []) e) h

file-EntriesIn :
    (files : List (Text × WebFile)) (path : Text) (o : Option WebFile)
    (entries : List (Text × WebFile))
    → get path files ≡ o
    → entries_of_file path o ≡ inr entries
    → EntriesIn files entries
file-EntriesIn files path none entries g e = absurd (inl-ne-inr e)
file-EntriesIn files path (some f) entries g e =
    subst (EntriesIn files) (ap (λ o. right_or o []) e) (get-Has files path f g, tt)

entries_of-EntriesIn :
    (s : Files) (path : Text) (entries : List (Text × WebFile))
    → entries_of s path ≡ inr entries
    → EntriesIn s.files_by_path entries
unfolding entries_of get_web_file list_web_file_entries_under_path
entries_of-EntriesIn s path entries e = elim (Bool-cases (is_web_directory s path)) [
  | inl folder ↦
      folder-EntriesIn s.files_by_path path (entries_under path s.files_by_path) entries
        (entries_under-EntriesIn path s.files_by_path) (rw (folder, entries_of) at e)
  | inr single ↦
      file-EntriesIn s.files_by_path path (get path s.files_by_path) entries refl
        (rw (single, entries_of) at e)
]

AreFiles-append :
    (files : List (Text × WebFile)) (ns : List Text) (bs : List (List ℕ)) (n : Text) (f : WebFile)
    → AreFiles files ns bs
    → Has files n f
    → AreFiles files (ns ++ n ∷ []) (bs ++ f.bytes ∷ [])
AreFiles-append files [] [] n f h k = ((f, k, refl), tt)
AreFiles-append files [] (b ∷ bs) n f h k = absurd h
AreFiles-append files (m ∷ ns) [] n f h k = absurd h
AreFiles-append files (m ∷ ns) (b ∷ bs) n f h k = (h.0, AreFiles-append files ns bs n f h.1 k)

push_entries-AreFiles :
    (files : List (Text × WebFile)) (p : Payload) (entries : List (Text × WebFile))
    → AreFiles files p.names p.bytes_list
    → EntriesIn files entries
    → AreFiles files (push_entries p entries).names (push_entries p entries).bytes_list
push_entries-AreFiles files p [] h k = h
push_entries-AreFiles files p ((path, f) ∷ entries) h k =
    push_entries-AreFiles files
      (record { names = p.names ++ path ∷ []; bytes_list = p.bytes_list ++ f.bytes ∷ [] }) entries
      (AreFiles-append files p.names p.bytes_list path f h k.0) k.1

collect_from-AreFiles :
    (s : Files) (p q : Payload) (paths : List Text)
    → AreFiles s.files_by_path p.names p.bytes_list
    → collect_from s p paths ≡ inr q
    → AreFiles s.files_by_path q.names q.bytes_list
unfolding collect_from
collect_from-AreFiles s p q [] h e =
    subst (λ (r : Payload). AreFiles s.files_by_path r.names r.bytes_list)
      (ap (λ o. right_or o p) e) h
collect_from-AreFiles s p q (path ∷ paths) h e = elim (Sum-cases (entries_of s path)) [
  | inl (error, bad) ↦ absurd (inl-ne-inr (rw (bad, collect_from) at e))
  | inr (entries, good) ↦
      collect_from-AreFiles s (push_entries p entries) q paths
        (push_entries-AreFiles s.files_by_path p entries h
          (entries_of-EntriesIn s path entries good))
        (rw (good, collect_from) at e)
]

checked-AreFiles :
    (s : Files) (p q : Payload) (kind type : WebSendEntryType)
    → AreFiles s.files_by_path p.names p.bytes_list
    → checked kind (inr p) ≡ inr (q, type)
    → AreFiles s.files_by_path q.names q.bytes_list × (0 < length q.names)
checked-AreFiles s p q kind type h e = elim (Bool-cases (leb (length p.names) 0)) [
  | inl empty ↦ absurd (inl-ne-inr (rw empty at e))
  | inr some_names ↦
      let same : p ≡ q =
        ap
          (λ (o : SendError ⊎ (Payload × WebSendEntryType)).
            (right_or {B = Payload × WebSendEntryType} o (p, kind)).0)
          (rw some_names at e) in
      subst (λ (r : Payload). AreFiles s.files_by_path r.names r.bytes_list × (0 < length r.names))
        same (h, ground (arith, some_names))
]

-- If collecting succeeds, it gives at least one name, as many contents as names, and each name is
-- the path of a registered file that has the content in the same place.
pub collect_web_send_payload-AreFiles :
    (s : Files) (paths : List Text) (q : Payload) (type : WebSendEntryType)
    → collect_web_send_payload s paths ≡ inr (q, type)
    → AreFiles s.files_by_path q.names q.bytes_list × (0 < length q.names)
unfolding collect_web_send_payload
collect_web_send_payload-AreFiles s paths q type e =
    elim (Sum-cases (collect_from s (record { names = []; bytes_list = [] }) paths)) [
      | inl (error, bad) ↦ absurd (inl-ne-inr (rw bad at e))
      | inr (p, good) ↦
          checked-AreFiles s p q (web_send_entry_type s paths) type
            (collect_from-AreFiles s (record { names = []; bytes_list = [] }) p paths tt good)
            (rw good at e)
    ]
