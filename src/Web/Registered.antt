-- ===== src/Web/Registered.antt =====
-- frontend/src/lib/web-file-store.ts: no path is a file and a folder at once.
use alt_sendme.Prelude.{
  ◌≡◌, refl, true, not, ◌&&◌, ◌||◌, Text, text_eq, text_eq_iff, none, List, [], ◌∷◌, ◌++◌, contains,
  add, get-put, get-delete, arith,
}
use alt_sendme.Web.Files.{
  WebFile, Files, without_path, register_web_file, register_web_directory, get_web_file,
  is_web_directory, clear_web_file, clear_web_files,
}

-- A call that changes the store.
pub data Call : Type 0 where
  register_file : Text → WebFile → Call
  register_directory : Text → Call
  clear_file : Text → Call
  clear_files : Call

unfoldable pub call : Files → Call → Files
unfolding register_web_file register_web_directory clear_web_file
call s (register_file path file) = register_web_file path file s
call s (register_directory path) = register_web_directory path s
call s (clear_file path) = clear_web_file path s
call s clear_files = clear_web_files

unfoldable pub calls : Files → List Call → Files
unfolding call
calls s [] = s
calls s (c ∷ cs) = calls (call s c) cs

abbrev pub Disjoint : Files → Type 0
Disjoint s = (path : Text) → is_web_directory s path ≡ true → get_web_file s path ≡ none

contains-append :
    (p q : Text) (ps : List Text) → contains p (ps ++ q ∷ []) ≡ (contains p ps || text_eq q p)
unfolding contains
contains-append p q [] = ground arith
contains-append p q (r ∷ ps) = ground (arith, contains-append p q ps)

pub contains-add :
    (p q : Text) (ps : List Text) → contains p (add q ps) ≡ (contains p ps || text_eq q p)
unfolding add
contains-add p q ps = ground (arith, contains-append p q ps, text_eq_iff q p)

pub contains-without :
    (p q : Text) (ps : List Text)
    → contains p (without_path q ps) ≡ (contains p ps && not (text_eq q p))
unfolding contains without_path
contains-without p q [] = ground arith
contains-without p q (r ∷ ps) =
    ground (arith, contains-without p q ps, text_eq_iff r q, text_eq_iff q p, text_eq_iff r p)

call-Disjoint : (s : Files) (c : Call) → Disjoint s → Disjoint (call s c)
unfolding call get_web_file is_web_directory register_web_file register_web_directory clear_web_file
call-Disjoint s (register_file q file) d p h = ground (
  arith,
  contains-without p q s.directory_paths,
  get-put q p file s.files_by_path,
  d p,
  text_eq_iff q p,
)
call-Disjoint s (register_directory q) d p h = ground (
  arith,
  contains-add p q s.directory_paths,
  get-delete q p s.files_by_path,
  d p,
  text_eq_iff q p,
)
call-Disjoint s (clear_file q) d p h = ground (
  arith,
  contains-without p q s.directory_paths,
  get-delete q p s.files_by_path,
  d p,
  text_eq_iff q p,
)
call-Disjoint s clear_files d p h = refl

calls-Disjoint : (s : Files) (cs : List Call) → Disjoint s → Disjoint (calls s cs)
unfolding calls
calls-Disjoint s [] d = d
calls-Disjoint s (c ∷ cs) d = calls-Disjoint (call s c) cs (call-Disjoint s c d)

-- Whatever is registered and cleared, from the empty store on, no path is a file and a folder at
-- once.
pub calls-clear_web_files-Disjoint : (cs : List Call) → Disjoint (calls clear_web_files cs)
unfolding get_web_file
calls-clear_web_files-Disjoint cs = calls-Disjoint clear_web_files cs (λ p h. refl)
