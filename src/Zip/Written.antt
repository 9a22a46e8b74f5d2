-- ===== src/Zip/Written.antt =====
-- frontend/src/lib/web-zip.ts: the bytes that `createStoreOnlyZip` returns.
use alt_sendme.Prelude.{
  ◌>>=◌, ℕ, ◌+◌, ◌≡◌, refl, sym, ◌∙◌, ap, Text, some, List, [], ◌∷◌, ◌++◌, length, arith,
  append_assoc, append-nil, length-append,
}
use alt_sendme.Zip.Bytes.{crc32, concat_chunks}
use alt_sendme.Zip.Headers.{end_record}
use alt_sendme.Zip.Archive.{Entry, Chunks, name_of, add_entry, add_entries, create_store_only_zip}
use alt_sendme.Zip.Layout.{
  local_bytes, local_header_lem, central_bytes, central_header_lem, end_bytes, end_record_lem,
  concat, concat_chunks_lem,
}

concat-append : (a b : List (List ℕ)) → concat (a ++ b) ≡ concat a ++ concat b
concat-append [] b = refl
concat-append (x ∷ a) b =
    ap (◌++◌ x) (concat-append a b) ∙ sym (append_assoc x (concat a) (concat b))

finish :
    (d : Chunks) (n : ℕ) (l c : List ℕ)
    → concat d.local ≡ l
    → concat d.central ≡ c
    → d.offset ≡ length l
    → (concat_chunks d.central >>= λ central. end_record n (length central) d.offset >>= λ end.
        concat_chunks (d.local ++ central ∷ end ∷ []))
      ≡ some (l ++ (c ++ end_bytes n (length c) (length l)))
finish d n l c e f g =
    rw
      (
        concat_chunks_lem d.central,
        f,
        g,
        end_record_lem n (length c) (length l),
        concat_chunks_lem (d.local ++ c ∷ end_bytes n (length c) (length l) ∷ []),
        concat-append d.local (c ∷ end_bytes n (length c) (length l) ∷ []),
        e,
      )
      refl

module _ (encode : Text → List ℕ) where
  abbrev pub local_of : Entry → List ℕ
  local_of e = local_bytes (name_of encode e) (crc32 e.bytes) (length e.bytes)

  abbrev pub central_of : Entry → ℕ → List ℕ
  central_of e offset = central_bytes (name_of encode e) (crc32 e.bytes) (length e.bytes) offset

  abbrev pub entry_length : Entry → ℕ
  entry_length e = length (local_of e) + length e.bytes

  -- The headers and contents of the entries, and the central directory from an offset.
  abbrev pub locals : List Entry → List ℕ
  locals [] = []
  locals (e ∷ es) = local_of e ++ (e.bytes ++ locals es)

  abbrev pub centrals : ℕ → List Entry → List ℕ
  centrals offset [] = []
  centrals offset (e ∷ es) = central_of e offset ++ centrals (offset + entry_length e) es

  abbrev ChunksOf : Chunks → List Entry → Chunks → Type 0
  ChunksOf c es d =
      (concat d.local ≡ concat c.local ++ locals es)
      × (concat d.central ≡ concat c.central ++ centrals c.offset es)
      × (d.offset ≡ c.offset + length (locals es))

  abbrev next_chunks : Chunks → Entry → Chunks
  next_chunks c e = record {
    local = c.local ++ local_of e ∷ e.bytes ∷ [];
    central = c.central ++ central_of e c.offset ∷ [];
    offset = c.offset + entry_length e;
  }

  add_entry_lem : (c : Chunks) (e : Entry) → add_entry encode c e ≡ some (next_chunks c e)
  unfolding add_entry
  add_entry_lem c e = rw (
    local_header_lem (name_of encode e) (crc32 e.bytes) (length e.bytes),
    central_header_lem (name_of encode e) (crc32 e.bytes) (length e.bytes) c.offset,
  )

  add_entries_lem :
      (es : List Entry) (c : Chunks)
      → (d : Chunks) × (add_entries encode c es ≡ some d) × ChunksOf c es d
  add_entries_lem [] c = (
    c,
    refl,
    (sym (append-nil (concat c.local)), sym (append-nil (concat c.central)), omega arith),
  )
  add_entries_lem (e ∷ es) c =
      let (d, run, (l, m, o)) = add_entries_lem es (next_chunks c e) in
      (
        d,
        rw (add_entry_lem c e) run,
        (
          rw (l, concat-append c.local (local_of e ∷ e.bytes ∷ []))
              (simp (append_assoc, append-nil)),
          rw (m, concat-append c.central (central_of e c.offset ∷ []))
              (simp (append_assoc, append-nil)),
          omega (
            arith,
            o,
            length-append (local_of e) (e.bytes ++ locals es),
            length-append e.bytes (locals es),
          ),
        ),
      )

  abbrev pub archive_of : List Entry → List ℕ
  archive_of es =
      locals es
      ++ (centrals 0 es ++ end_bytes (length es) (length (centrals 0 es)) (length (locals es)))

  pub create_store_only_zip_lem :
      (e : Entry) (es : List Entry)
      → create_store_only_zip encode (e ∷ es) ≡ some (archive_of (e ∷ es))
  unfolding create_store_only_zip
  create_store_only_zip_lem e es =
      let (d, run, (l, m, o)) =
        add_entries_lem (e ∷ es) (record { local = []; central = []; offset = 0 }) in
      let o' : d.offset ≡ length (locals (e ∷ es)) = omega (arith, o) in
      rw run (finish d (length (e ∷ es)) (locals (e ∷ es)) (centrals 0 (e ∷ es)) l m o')
