-- ===== src/Web/Entries.antt =====
-- frontend/src/lib/web-drag-drop.ts: reading the entries of the browser's file system that are dropped.
use alt_sendme.Prelude.{
  ℕ, zero, suc, ◌++◌, Text, Option, none, some, List, [], ◌∷◌, is_empty, if◌then◌else◌,
}
use alt_sendme.Web.Files.{WebFile}

-- A `FileSystemEntry`, with its name and what the browser gives when it is read: the file, or `none`
-- where that fails; for a directory, what the calls of `readEntries` give one after the other.
mutual
  pub data Entry : Type 0 where
    file_entry : Text → Option WebFile → Entry
    directory_entry : Text → Answers → Entry
    other_entry : Entry

  pub data Answers : Type 0 where
    -- the call fails
    rejected : Answers
    answer : Entries → Answers → Answers

  pub data Entries : Type 0 where
    nil : Entries
    cons : Entry → Entries → Entries

abbrev pub Found : Type 0
Found = Option (List (Text × WebFile))

abbrev pub append : Entries → Entries → Entries
append nil fs = fs
append (cons e es) fs = cons e (append es fs)

-- `readBatch`, with `allEntries`: the directory is read to its first empty batch.
unfoldable pub read_batch : Entries → Answers → Option Entries
read_batch all_entries rejected = none
read_batch all_entries (answer nil rest) = some all_entries
read_batch all_entries (answer (cons e es) rest) = read_batch (append all_entries (cons e es)) rest

-- `basePath ? `${basePath}/${name}` : name`
abbrev pub path_in : Text → Text → Text
path_in base name = if is_empty base then name else base ++ (b'/' ∷ name)

abbrev pub both : Found → Found → Found
both none found = none
both (some xs) none = none
both (some xs) (some ys) = some (xs ++ ys)

-- `(await Promise.all(children.map(read))).flat()`
abbrev pub read_all : (Entry → Found) → Entries → Found
read_all read nil = some []
read_all read (cons e es) = both (read e) (read_all read es)

abbrev pub read_children : (Entry → Found) → Option Entries → Found
read_children read none = none
read_children read (some children) = read_all read children

abbrev pub at_path : Text → Option WebFile → Found
at_path path none = none
at_path path (some f) = some ((path, f) ∷ [])

-- `readEntryRecursively`, on fuel for the depth of the directories.
unfoldable pub read_entry_recursively : ℕ → Text → Entry → Found
unfolding read_batch
read_entry_recursively zero base e = none
read_entry_recursively (suc n) base (file_entry name f) = at_path (path_in base name) f
read_entry_recursively (suc n) base (directory_entry name answers) =
    read_children (read_entry_recursively n (path_in base name)) (read_batch nil answers)
read_entry_recursively (suc n) base other_entry = some []
