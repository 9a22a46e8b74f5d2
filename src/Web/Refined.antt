-- ===== src/Web/Refined.antt =====
-- frontend/src/lib/web-file-store.ts: its two maps are one map from paths to files and folders.
use alt_sendme.Prelude.{
  ◌≡◌, refl, ap, ◌∙◌, Bool, true, false, Text, text_eq, Option, none, some, List, [], ◌∷◌, get,
  get-put, get-delete, arith, if◌then◌else◌,
}
use alt_sendme.Web.Files.{
  WebFile, Files, register_web_file, register_web_directory, clear_web_file, clear_web_files,
  get_web_file, is_web_directory, list_web_file_entries_under_path,
}
use alt_sendme.Web.Registered.{
  Call, register_file, register_directory, clear_file, clear_files, call, calls, contains-add,
  contains-without,
}
use alt_sendme.Web.Dropped.{is_under, entries_under-get}

-- What a path is for the user.
pub data Kind : Type 0 where
  nothing a_folder : Kind
  a_file : WebFile → Kind

abbrev pub is_folder : Kind → Bool
is_folder nothing = false
is_folder a_folder = true
is_folder (a_file f) = false

abbrev pub file_in : Kind → Option WebFile
file_in nothing = none
file_in a_folder = none
file_in (a_file f) = some f

abbrev pub set_kind : Text → Kind → (Text → Kind) → Text → Kind
set_kind path kind choice other = if text_eq path other then kind else choice other

abbrev pub choose : (Text → Kind) → Call → Text → Kind
choose choice (register_file path f) = set_kind path (a_file f) choice
choose choice (register_directory path) = set_kind path a_folder choice
choose choice (clear_file path) = set_kind path nothing choice
choose choice clear_files = λ path. nothing

abbrev pub choose_all : (Text → Kind) → List Call → Text → Kind
choose_all choice [] = choice
choose_all choice (c ∷ cs) = choose_all (choose choice c) cs

-- The store holds the choice.
abbrev Implements : Files → (Text → Kind) → Type 0
Implements s choice =
    (path : Text)
    → (is_web_directory s path ≡ is_folder (choice path))
      × (get_web_file s path ≡ file_in (choice path))

call-Implements :
    (s : Files) (choice : Text → Kind) (c : Call)
    → Implements s choice
    → Implements (call s c) (choose choice c)
unfolding call get_web_file is_web_directory register_web_file register_web_directory clear_web_file
call-Implements s choice (register_file q f) h p =
    ground (arith, h p, contains-without p q s.directory_paths, get-put q p f s.files_by_path)
call-Implements s choice (register_directory q) h p =
    ground (arith, h p, contains-add p q s.directory_paths, get-delete q p s.files_by_path)
call-Implements s choice (clear_file q) h p =
    ground (arith, h p, contains-without p q s.directory_paths, get-delete q p s.files_by_path)
call-Implements s choice clear_files h p = (refl, refl)

calls-Implements :
    (s : Files) (choice : Text → Kind) (cs : List Call)
    → Implements s choice
    → Implements (calls s cs) (choose_all choice cs)
unfolding calls
calls-Implements s choice [] h = h
calls-Implements s choice (c ∷ cs) h =
    calls-Implements (call s c) (choose choice c) cs (call-Implements s choice c h)

-- The store refines one map from paths to nothing, a folder or a file: after any calls from the empty
-- store, whether a path is a folder, which file it is, and which file is listed at it under any
-- folder are what they are in the map that the same calls have set entry by entry.
pub calls-refine :
    (cs : List Call) (folder path : Text)
    → let s = calls clear_web_files cs in
      let kind = choose_all (λ other. nothing) cs path in
      (is_web_directory s path ≡ is_folder kind)
      × (get_web_file s path ≡ file_in kind)
      × (get path (list_web_file_entries_under_path s folder)
          ≡ (if is_under folder path then file_in kind else none))
unfolding get_web_file is_web_directory list_web_file_entries_under_path
calls-refine cs folder path =
    let s = calls clear_web_files cs in
    let held =
      calls-Implements clear_web_files (λ other. nothing) cs (λ other. (refl, refl)) path in
    (
      held.0,
      held.1,
      entries_under-get folder path s.files_by_path
          ∙ ap (λ o. if is_under folder path then o else none) (held.1),
    )
