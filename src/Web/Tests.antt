-- ===== src/Web/Tests.antt =====
-- A store with a file and a folder of one file.
use Prim.Native.Nat.{compare, Ordering}
use alt_sendme.Prelude.{
  inr, contains, put, text_eq, split, non_empty, arith, ℕ, ◌≡◌, refl, codes, none, some, true,
  if◌then◌else◌, Text, List, [], ◌∷◌, get,
}
use alt_sendme.Web.Metadata.{basename, dedup_name}
use alt_sendme.Web.Files.{
  entries_under, WebFile, Files, clear_web_files, get_web_file, is_web_directory,
  list_web_file_entries_under_path,
}
use alt_sendme.Web.Registered.{calls, register_file, register_directory}
use alt_sendme.Web.Send.{
  Payload, collection, collect_web_send_payload, collect_from, entries_of, web_send_entry_type,
}
use alt_sendme.Web.Preview.{
  build_web_send_metadata_for_paths, total_size_for_paths, total_size_from, build_preview_items,
  preview_from, item_details,
}
use alt_sendme.Web.Previewed.{Described, collect_web_send_payload-Described}
use alt_sendme.Web.Entries.{
  Entry, file_entry, directory_entry, Answers, answer, rejected, nil, cons, read_entry_recursively,
}
use alt_sendme.Web.Reading.{files_of, depth, read_entry_recursively-ends}
use alt_sendme.Web.Drop.{process_web_data_transfer}
use alt_sendme.Web.Dropped.{folder_item, newest, drop_folder-lists}
use alt_sendme.Transfer.{PathType}
use alt_sendme.Web.Refined.{nothing, choose_all, is_folder, file_in, calls-refine}
use alt_sendme.Web.Dropped.{is_under}

abbrev pub web_file : List ℕ → WebFile
web_file bytes = record { name = codes "x"; type = []; bytes = bytes; webkit_relative_path = none }

abbrev pub store : Files
store = record {
  files_by_path = (codes "a", web_file (1 ∷ [])) ∷ (codes "d/b", web_file (2 ∷ [])) ∷ [];
  directory_paths = codes "d" ∷ [];
}

abbrev sent : Payload
sent = record { names = codes "d/b" ∷ codes "a" ∷ []; bytes_list = (2 ∷ []) ∷ (1 ∷ []) ∷ [] }

-- A folder `d` of two batches: a file, then a folder with a file.
abbrev inner : Entry
inner =
    directory_entry (codes "e")
      (answer (cons (file_entry (codes "y") (some (web_file (4 ∷ [])))) nil) (answer nil rejected))

abbrev batches : Answers
batches =
    answer (cons (file_entry (codes "x") (some (web_file (3 ∷ [])))) nil)
      (answer (cons inner nil) (answer nil rejected))

abbrev read : List (Text × WebFile)
read = (codes "d/x", web_file (3 ∷ [])) ∷ (codes "d/e/y", web_file (4 ∷ [])) ∷ []

read_entry_recursively-ends_example :
    read_entry_recursively 3 [] (directory_entry (codes "d") batches)
    ≡ files_of [] (directory_entry (codes "d") batches)
unfolding depth
read_entry_recursively-ends_example =
    read_entry_recursively-ends 3 [] (directory_entry (codes "d") batches) (omega arith)

drop_folder-lists_example :
    let r =
      process_web_data_transfer 3
        (record { items = folder_item (codes "d") batches ∷ []; files = [] })
        store in
    (r.1 ≡ some (record { paths = codes "d" ∷ []; path_type = some PathType.directory }))
    × (is_web_directory (r.0) (codes "d") ≡ true)
    × (get (codes "d/b") (list_web_file_entries_under_path (r.0) (codes "d"))
        ≡ newest (codes "d/b") read (get_web_file store (codes "d/b")))
unfolding depth files_of
drop_folder-lists_example =
    drop_folder-lists 3 (codes "d") batches read [] store (codes "d/b") refl (omega arith) refl refl

calls-refine_example :
    let cs =
      register_file (codes "d/b") (web_file (2 ∷ [])) ∷ register_directory (codes "d") ∷ [] in
    let s = calls clear_web_files cs in
    let kind = choose_all (λ other. nothing) cs (codes "d/b") in
    (is_web_directory s (codes "d/b") ≡ is_folder kind)
    × (get_web_file s (codes "d/b") ≡ file_in kind)
    × (get (codes "d/b") (list_web_file_entries_under_path s (codes "d"))
        ≡ (if is_under (codes "d") (codes "d/b") then file_in kind else none))
calls-refine_example =
    calls-refine
      (register_file (codes "d/b") (web_file (2 ∷ [])) ∷ register_directory (codes "d") ∷ [])
      (codes "d") (codes "d/b")

abbrev by_first : Text → Text → Ordering
by_first [] b = Ordering.lt
by_first (c ∷ a) [] = Ordering.gt
by_first (c ∷ a) (d ∷ b) = compare c d

told :
    build_web_send_metadata_for_paths by_first store (codes "d" ∷ codes "a" ∷ [])
    ≡ inr (record {
      file_name = codes "d";
      item_count = 2;
      size = 2;
      mime_type = codes "application/x-iroh-collection";
      items = some (
          record { file_name = codes "a"; size = 1; mime_type = codes "application/octet-stream" }
          ∷ record { file_name = codes "d"; size = 1; mime_type = codes "inode/directory" }
          ∷ []);
    })
unfolding build_web_send_metadata_for_paths basename total_size_for_paths total_size_from
    build_preview_items preview_from item_details dedup_name is_web_directory get_web_file
    list_web_file_entries_under_path entries_under contains get put text_eq split non_empty
told = refl

can_send : collect_web_send_payload store (codes "d" ∷ codes "a" ∷ []) ≡ inr (sent, collection)
unfolding collect_web_send_payload collect_from entries_of web_send_entry_type is_web_directory
    get_web_file list_web_file_entries_under_path entries_under contains get text_eq
can_send = refl

collect_web_send_payload-Described_example :
    Described
      (codes "d" ∷ codes "a" ∷ [])
      sent
      (build_web_send_metadata_for_paths by_first store (codes "d" ∷ codes "a" ∷ []))
collect_web_send_payload-Described_example =
    collect_web_send_payload-Described by_first store (codes "d") (codes "a" ∷ []) sent collection
      can_send
