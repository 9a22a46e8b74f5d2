-- ===== src/Bridge/Tests.antt =====
-- Calls on a small store, with an engine that gives one ticket and one file.
use alt_sendme.Prelude.{ℕ, ◌+◌, ◌≡◌, refl, codes, true, false, none, some, [], ◌∷◌, inr, text_eq}
use alt_sendme.Save.Kept.{Keeps}
use alt_sendme.Save.Tests.{Disk, memory, memory-Documented, start, ascii}
use alt_sendme.Web.Files.{WebFile, web_file_path_key}
use alt_sendme.Web.Registered.{calls, register_file, register_directory}
use alt_sendme.Web.Files.{Files, clear_web_files}
use alt_sendme.Web.Entries.{file_entry}
use alt_sendme.Web.Drop.{entry_item, process_web_data_transfer}
use alt_sendme.Web.Tests.{store, web_file}
use alt_sendme.Bridge.Engine.{Engine, Browser}
use alt_sendme.Bridge.Stub.{text, null_value, get_sharing_status}
use alt_sendme.Bridge.Invoke.{receive_file, send_items, stop_sharing, stub, invoke_web}
use alt_sendme.Bridge.Picking.{pick_paths_in_browser, one_path}
use alt_sendme.Bridge.Receiving.{completions, succeeds, receive_file-Tells}
use alt_sendme.Bridge.Sharing.{paths_of, dropped_file-shared}

abbrev engine : Engine ℕ ℕ
engine = record {
  is_loaded = true;
  fetch_ticket_metadata = λ ticket relay. some 1;
  send_items = λ payload type relay. some (codes "t");
  receive_file = λ ticket relay. some (codes "a.txt" ∷ [], (1 ∷ []) ∷ []);
  verify_relays = λ relay. none;
  get_relay_status = λ relay. none;
}

abbrev browser : Browser Disk
browser = record { files = store; current_ticket = none; world = start; dispatched = [] }

-- A file `a` and a folder `d` with one file.
abbrev chosen : Files
chosen =
    calls clear_web_files
      (register_directory (codes "d") ∷ register_file (codes "d/b") (web_file (1 ∷ 2 ∷ [])) ∷ [])

receive_file-Tells_example :
    let r = invoke_web memory ascii none engine (receive_file (some (codes "t")) none) browser in
    (completions r.0.dispatched ≡ completions browser.dispatched + succeeds r.1)
    × Keeps memory memory-Documented browser.world.disk r.0.world.disk
receive_file-Tells_example =
    receive_file-Tells memory memory-Documented ascii none engine (some (codes "t")) none browser

dropped_file-shared_example :
    let dropped =
      process_web_data_transfer 1
        (record {
          items = entry_item (file_entry (codes "x") (some (web_file (5 ∷ [])))) ∷ [];
          files = [];
        })
        browser.files in
    let run = invoke_web memory ascii none engine in
    let shared =
      run (send_items (paths_of dropped.1) none) (record browser { files = dropped.0 }) in
    let stopped = run stop_sharing shared.0 in
    (shared.1 ≡ inr (text (codes "t")))
    × ((run (stub get_sharing_status) shared.0).1 ≡ inr (text (codes "t")))
    × ((run (stub get_sharing_status) stopped.0).1 ≡ inr null_value)
unfolding web_file_path_key
dropped_file-shared_example =
    dropped_file-shared memory ascii none engine none 1 (codes "x") (web_file (5 ∷ [])) browser
      (codes "t") refl refl refl

-- A file of the folder `d`.
abbrev in_folder : WebFile
in_folder = record {
  name = codes "b";
  type = [];
  bytes = 8 ∷ [];
  webkit_relative_path = some (codes "d/b");
}

picked_folder :
    pick_paths_in_browser
      (record { multiple = false; directory = true })
      (in_folder ∷ [])
      clear_web_files
    ≡ (
      record { files_by_path = (codes "d/b", in_folder) ∷ []; directory_paths = codes "d" ∷ [] },
      one_path (codes "d"),
    )
unfolding pick_paths_in_browser text_eq
picked_folder = refl
