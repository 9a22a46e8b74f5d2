-- ===== src/Web/Previewed.antt =====
-- frontend/src/lib/web-send-metadata.ts with web-send-items.ts: the sizes that are told are those that are
-- sent.
use Prim.Native.Nat.{Ordering}
use mathlib.Core.Sum.{inl-ne-inr}
use alt_sendme.Prelude.{
  ℕ, suc, ◌+◌, ◌≡◌, refl, ap, ◌∙◌, Text, none, some, List, [], ◌∷◌, length, ◌⊎◌, inl, inr,
  Bool-cases, Option-cases, codes, arith, leb,
}
use alt_sendme.Sorting.{insert, sort, length-sort}
use alt_sendme.Web.Files.{Files, get_web_file, is_web_directory}
use alt_sendme.Web.Send.{
  WebSendEntryType, SendError, Payload, push_entries, collect_web_send_payload, collect_from,
  entries_of,
}
use alt_sendme.Web.Sent.{Sum-cases}
use alt_sendme.Web.Metadata.{basename, dedup_name}
use alt_sendme.Web.Preview.{
  PreviewItem, Metadata, MetadataError, item_details, preview_from, total_size_from,
  total_size_for_paths, by_file_name, build_preview_items, build_web_send_metadata_for_paths,
  build_web_send_metadata_for_file, directory_type,
}
use alt_sendme.Web.Told.{
  bytes_in, sum_items, push_entries-bytes, size_told, size_step, size_step-told, right_of,
  entries_of-Told,
}

-- The sum of the items is the total that is counted, whatever paths are skipped.
preview-total :
    (s : Files) (seen : List (Text × ℕ)) (total : ℕ) (paths : List Text)
    → total_size_from s total paths ≡ total + sum_items (preview_from s seen paths)
unfolding total_size_from preview_from
preview-total s seen total [] = omega arith
preview-total s seen total (path ∷ paths) =
    let next : ℕ = size_step s total path in
    let step : next ≡ total + size_told (item_details s path) = size_step-told s total path in
    elim (Option-cases (item_details s path)) [
      | inl e ↦
          let same : size_told (item_details s path) ≡ 0 = ap size_told e in
          rw (e, preview_from) (omega (arith, preview-total s seen next paths, step, same))
      | inr (details, e) ↦
          let same : size_told (item_details s path) ≡ details.0 = ap size_told e in
          let after = (dedup_name (basename path) seen).1 in
          rw (e, preview_from) (omega (arith, preview-total s after next paths, step, same))
    ]

-- What the loop over the paths sends is what is counted.
collect-total :
    (s : Files) (p q : Payload) (total : ℕ) (paths : List Text)
    → collect_from s p paths ≡ inr q
    → total_size_from s total paths + bytes_in p.bytes_list ≡ total + bytes_in q.bytes_list
unfolding collect_from total_size_from
collect-total s p q total [] e =
    let same : p ≡ q = ap (right_of p p) e in ap (λ r. total + bytes_in r.bytes_list) same
collect-total s p q total (path ∷ paths) e = elim (Sum-cases (entries_of s path)) [
  | inl (error, bad) ↦ absurd (inl-ne-inr (rw (bad, collect_from) at e))
  | inr (entries, good) ↦
      let told = entries_of-Told s path entries good in
      let size : size_told (item_details s path) ≡ told.0.0 = ap size_told told.1 in
      omega (
        arith,
        collect-total s (push_entries p entries) q (size_step s total path) paths
            (rw (good, collect_from) at e),
        size_step-told s total path,
        size,
        told.2,
        push_entries-bytes p entries,
      )
]

-- Each path that sends something has an item.
collect-items :
    (s : Files) (seen : List (Text × ℕ)) (p q : Payload) (paths : List Text)
    → collect_from s p paths ≡ inr q
    → length (preview_from s seen paths) ≡ length paths
unfolding collect_from preview_from
collect-items s seen p q [] e = refl
collect-items s seen p q (path ∷ paths) e = elim (Sum-cases (entries_of s path)) [
  | inl (error, bad) ↦ absurd (inl-ne-inr (rw (bad, collect_from) at e))
  | inr (entries, good) ↦
      let told = entries_of-Told s path entries good in
      rw (told.1, preview_from)
        (ap suc (
          collect-items s (dedup_name (basename path) seen).1 (push_entries p entries) q paths
            (rw (good, collect_from) at e)))
]

sum-insert :
    (order : PreviewItem → PreviewItem → Ordering) (x : PreviewItem) (xs : List PreviewItem)
    → sum_items (insert order x xs) ≡ x.size + sum_items xs
sum-insert order x [] = refl
sum-insert order x (y ∷ ys) = ground (arith, sum-insert order x ys)

sum-sort :
    (order : PreviewItem → PreviewItem → Ordering) (xs : List PreviewItem)
    → sum_items (sort order xs) ≡ sum_items xs
sum-sort order [] = refl
sum-sort order (x ∷ xs) = omega (arith, sum-insert order x (sort order xs), sum-sort order xs)

-- One path has no items and counts as one; of several paths each has an item, and the sizes of the
-- items add up to the size that is told.
abbrev pub Itemized : List Text → Metadata → Type 0
Itemized [] metadata = ⊥
Itemized (path ∷ []) metadata = (metadata.items ≡ none) × (metadata.item_count ≡ 1)
Itemized (path ∷ other ∷ paths) metadata =
    (items : List PreviewItem) × (metadata.items ≡ some items)
    × (length items ≡ length (path ∷ other ∷ paths))
    × (metadata.item_count ≡ length (path ∷ other ∷ paths))
    × (sum_items items ≡ metadata.size)

-- What is told of a selection that can be sent.
pub record Described (paths : List Text) (p : Payload) (result : MetadataError ⊎ Metadata)
    : Type 0 where
  pub metadata : Metadata
  pub built : result ≡ inr metadata
  pub size_sent : metadata.size ≡ bytes_in p.bytes_list
  pub itemized : Itemized paths metadata

abbrev empty_payload : Payload
empty_payload = record { names = []; bytes_list = [] }

abbrev payload_or : Payload → SendError ⊎ (Payload × WebSendEntryType) → Payload
payload_or q (inl error) = q
payload_or q (inr (p, type)) = p

collected :
    (s : Files) (paths : List Text) (p : Payload) (type : WebSendEntryType)
    → collect_web_send_payload s paths ≡ inr (p, type)
    → collect_from s empty_payload paths ≡ inr p
unfolding collect_web_send_payload
collected s paths p type e = elim (Sum-cases (collect_from s empty_payload paths)) [
  | inl (error, bad) ↦ absurd (inl-ne-inr (rw (bad) at e))
  | inr (q, good) ↦ elim (Bool-cases (leb (length q.names) 0)) [
    | inl none_named ↦ absurd (inl-ne-inr (rw (good, none_named) at e))
    | inr named ↦ good ∙ ap (λ o. inr (payload_or q o)) (rw (good, named) at e)
  ]
]

no_items :
    (s : Files) (path : Text)
    → item_details s path ≡ none
    → length (preview_from s [] (path ∷ [])) ≡ 0
unfolding preview_from
no_items s path e = rw (e, preview_from) refl

one-Described :
    (s : Files) (path : Text) (p : Payload) (names_order : Text → Text → Ordering)
    → collect_from s empty_payload (path ∷ []) ≡ inr p
    → Described (path ∷ []) p (build_web_send_metadata_for_paths names_order s (path ∷ []))
unfolding build_web_send_metadata_for_paths total_size_for_paths total_size_from item_details
one-Described s path p names_order e =
    let total : total_size_for_paths s (path ∷ []) ≡ bytes_in p.bytes_list =
      omega (arith, collect-total s empty_payload p 0 (path ∷ []) e) in
    elim (Bool-cases (is_web_directory s path)) [
      | inl folder ↦ record {
        metadata = record {
          file_name = basename path;
          item_count = 1;
          size = total_size_for_paths s (path ∷ []);
          mime_type = directory_type;
          items = none;
        };
        built = rw (folder) refl;
        size_sent = total;
        itemized = (refl, refl);
      }
      | inr single ↦ elim (Option-cases (get_web_file s path)) [
        | inl gone ↦
            let no_details : item_details s path ≡ none = rw (single, gone) refl in
            absurd (
              omega (
                arith,
                collect-items s [] empty_payload p (path ∷ []) e,
                no_items s path no_details,
              ))
        | inr (f, e) ↦ record {
          metadata = build_web_send_metadata_for_file f;
          built = rw (single, e) refl;
          size_sent = omega (arith, total, (rw (single, e) at total));
          itemized = (refl, refl);
        }
      ]
    ]

-- What is told of a selection that can be sent agrees with it: the size is the number of bytes that
-- are sent. Of one path no items are told, and the count is 1; of several, there are as many items as
-- paths, the count is their number, and their sizes add up to the size.
pub collect_web_send_payload-Described :
    (names_order : Text → Text → Ordering) (s : Files) (path : Text) (paths : List Text)
    (p : Payload) (type : WebSendEntryType)
    → collect_web_send_payload s (path ∷ paths) ≡ inr (p, type)
    → Described (path ∷ paths) p (build_web_send_metadata_for_paths names_order s (path ∷ paths))
unfolding build_web_send_metadata_for_paths total_size_for_paths build_preview_items
collect_web_send_payload-Described names_order s path [] p type e =
    one-Described s path p names_order (collected s (path ∷ []) p type e)
collect_web_send_payload-Described names_order s path (other ∷ paths) p type e =
    let all : List Text = path ∷ other ∷ paths in
    let sent = collected s all p type e in
    let items : List PreviewItem = preview_from s [] all in
    let shown : List PreviewItem = build_preview_items names_order s all in
    let count : length shown ≡ length all =
      length-sort (by_file_name names_order) items ∙ collect-items s [] empty_payload p all sent in
    let sum : sum_items shown ≡ total_size_for_paths s all =
      sum-sort (by_file_name names_order) items ∙ omega (arith, preview-total s [] 0 all) in
    record {
      metadata = record {
        file_name = basename path;
        item_count = length shown;
        size = total_size_for_paths s all;
        mime_type = codes "application/x-iroh-collection";
        items = some shown;
      };
      built = refl;
      size_sent = omega (arith, collect-total s empty_payload p 0 all sent);
      itemized = (shown, refl, count, count, sum);
    }
