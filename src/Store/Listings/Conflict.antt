-- ===== src/Store/Listings/Conflict.antt =====
-- `upsert_listing` of store/sqlite_store.py where the listing's key and address are known already: on
-- one row, or on two.
use athome_japan_agent_harne.Common.{
  ℕ, String, ◌==◌, ◌≡◌, ◌≢◌, ◌⊎◌, refl, sym, ap, ◌∙◌, true, false, not, ◌&&◌, some, List, [], ◌∷◌,
  inl, inr, arith, ok, err, find, find-none, any, any-In, find-In, find-holds, In, All-In,
  Bool-cases, Option-cases, eq_iff, eq_false-of_ne,
}
use athome_japan_agent_harne.Models.{Listing, is_detail_complete}
use athome_japan_agent_harne.Store.Db.{Db, ListingRow, integrity_error}
use athome_japan_agent_harne.Store.Merge.{merge_listing, merged_values, merge_text}
use athome_japan_agent_harne.Store.Merge.Keeps.{inferred, model_validate-eq-ok}
use athome_japan_agent_harne.Store.Merge.Valid.{IsListing, merge_listing-IsListing}
use athome_japan_agent_harne.Store.Listings.{
  clashes, url_clashes, upsert_listing, with_agency, deserialize_listing, same_property,
  has_athome_key, update_existing, merge_conflict, store_listing,
}
use athome_japan_agent_harne.Store.Listings.Rows.{RowDiffers, DistinctRows}
use athome_japan_agent_harne.Store.Listings.Unique.{
  IsTable, with_agency-listings, with_agency-IsTable,
}

RowDiffers-symm : {r s : ListingRow} → RowDiffers r s → RowDiffers s r
RowDiffers-symm d = record {
  id = λ e. d.id (sym e);
  key = λ e. d.key (sym e);
  url = λ e. d.url (sym e);
}

-- Two rows of the table are one row, or differ in all three identities.
rows_apart :
    (rows : List ListingRow) (r s : ListingRow)
    → DistinctRows rows
    → In r rows
    → In s rows
    → (r ≡ s) ⊎ RowDiffers r s
rows_apart [] r s d m n = elim m [ ]
rows_apart (q ∷ rows) r s (away, d) (inl e) (inl f) = inl (e ∙ sym f)
rows_apart (q ∷ rows) r s (away, d) (inl e) (inr n) =
    inr (rw e (All-In (RowDiffers q) rows s away n))
rows_apart (q ∷ rows) r s (away, d) (inr m) (inl f) =
    inr (rw f (RowDiffers-symm (All-In (RowDiffers q) rows r away m)))
rows_apart (q ∷ rows) r s (away, d) (inr m) (inr n) = rows_apart rows r s d m n

module _ (rows : List ListingRow) (d : DistinctRows rows) where
  key_row : (r s : ListingRow) → In r rows → In s rows → r.athome_key ≡ s.athome_key → r ≡ s
  key_row r s m n e = elim (rows_apart rows r s d m n) [
    | inl same ↦ same
    | inr apart ↦ absurd (apart.key e)
  ]

  id_row : (r s : ListingRow) → In r rows → In s rows → r.internal_id ≡ s.internal_id → r ≡ s
  id_row r s m n e = elim (rows_apart rows r s d m n) [
    | inl same ↦ same
    | inr apart ↦ absurd (apart.id e)
  ]

  find_key : (r : ListingRow) → In r rows → find (has_athome_key r.athome_key) rows ≡ some r
  find_key r m = elim (Option-cases (find (has_athome_key r.athome_key) rows)) [
    | inl absent ↦
        let miss =
          All-In (λ s. has_athome_key r.athome_key s ≡ false) rows r
            (find-none (has_athome_key r.athome_key) rows absent) m in
        absurd (ground (arith, eq_iff r.athome_key r.athome_key))
    | inr (s, found) ↦
        let hit = find-holds (has_athome_key r.athome_key) rows s found in
        rw found (
          ap some (
            key_row s r (find-In (has_athome_key r.athome_key) rows s found) m
              ((eq_iff s.athome_key r.athome_key).0 hit)))
  ]

  -- A row that the SELECT may choose is the row with the key, or the one with the address.
  chosen-eq :
      (a b r : ListingRow) (key url : String)
      → In a rows
      → In b rows
      → In r rows
      → a.athome_key ≡ key
      → b.url ≡ url
      → same_property key url r ≡ true
      → (r ≡ a) ⊎ (r ≡ b)
  chosen-eq a b r key url ma mb mr at_key at_url hit = elim (Bool-cases (r.athome_key == key)) [
    | inl e ↦ inl (key_row r a mr ma ((eq_iff r.athome_key key).0 e ∙ sym at_key))
    | inr e ↦
        let at : (r.url == url) ≡ true = ground arith in
        elim (rows_apart rows r b d mr mb) [
          | inl same ↦ inr same
          | inr apart ↦ absurd (apart.url ((eq_iff r.url url).0 at ∙ sym at_url))
        ]
  ]

-- The stored detail does not shield the row from the update.
abbrev pub TakesUpdate : ListingRow → Listing → Type 0
TakesUpdate r l =
    (is_detail_complete r.payload.completeness && not (is_detail_complete l.completeness)) ≡ false

-- One row, `a`, has the key, and another, `b`, the address.
module _ (db : Db) (t : IsTable db) (a b : ListingRow) (ma : In a db.listings)
    (mb : In b db.listings) (l : Listing) (now : ℕ) (at_key : a.athome_key ≡ l.athome_key)
    (at_url : b.url ≡ l.url) (two : a.internal_id ≢ b.internal_id) where
  merge_conflict-raises :
      (canonical : String) → merge_conflict canonical l now db ≡ (err integrity_error, db)
  merge_conflict-raises canonical =
      let owner : find (has_athome_key l.athome_key) db.listings ≡ some a =
        rw (← at_key) (find_key db.listings t.distinct a ma) in
      let apart : url_clashes a.internal_id l.url b ≡ true =
        rw (eq_false-of_ne b.internal_id a.internal_id (λ e. two (sym e)))
          ((eq_iff b.url l.url).1 at_url) in
      let hit : any (url_clashes a.internal_id l.url) db.listings ≡ true =
        any-In (url_clashes a.internal_id l.url) db.listings b mb apart in
      rw (owner, hit) refl

  in_the_way : (canonical : String) → any (clashes canonical l.athome_key l.url) db.listings ≡ true
  in_the_way canonical =
      let key : (a.athome_key == l.athome_key) ≡ true =
        (eq_iff a.athome_key l.athome_key).1 at_key in
      let url : (b.url == l.url) ≡ true = (eq_iff b.url l.url).1 at_url in
      elim (Bool-cases (a.internal_id == canonical)) [
        | inl e ↦
            let at_a : a.internal_id ≡ canonical = (eq_iff a.internal_id canonical).0 e in
            let off : (b.internal_id == canonical) ≡ false =
              eq_false-of_ne b.internal_id canonical (λ f. two (at_a ∙ sym f)) in
            any-In (clashes canonical l.athome_key l.url) db.listings b mb (ground arith)
        | inr e ↦ any-In (clashes canonical l.athome_key l.url) db.listings a ma (ground arith)
      ]

  -- Whichever row is to be rewritten, the other one is in the way.
  update_existing-raises :
      (canonical : String) → update_existing canonical l now db ≡ (err integrity_error, db)
  update_existing-raises canonical = rw (in_the_way canonical) (merge_conflict-raises canonical)

merge_text-incoming : (e i : String) → i ≢ "" → merge_text e i ≡ i
merge_text-incoming e i h = rw (eq_false-of_ne i "" h) refl

-- What an incoming listing that is not shielded against does to the identities.
pub merged-identities :
    (existing incoming merged : Listing)
    → (is_detail_complete existing.completeness && not (is_detail_complete incoming.completeness))
      ≡ false
    → merge_listing existing incoming ≡ ok merged
    → merged ≡ inferred (merged_values existing incoming)
unfolding merge_listing
merged-identities existing incoming merged takes h =
    model_validate-eq-ok (merged_values existing incoming) merged (rw takes at h)

pub merged-key :
    (existing incoming merged : Listing)
    → (is_detail_complete existing.completeness && not (is_detail_complete incoming.completeness))
      ≡ false
    → merge_listing existing incoming ≡ ok merged
    → incoming.athome_key ≢ ""
    → merged.athome_key ≡ incoming.athome_key
unfolding merged_values
merged-key existing incoming merged takes h named =
    rw (merged-identities existing incoming merged takes h)
      (merge_text-incoming existing.athome_key incoming.athome_key named)

pub merged-id :
    (existing incoming merged : Listing)
    → (is_detail_complete existing.completeness && not (is_detail_complete incoming.completeness))
      ≡ false
    → merge_listing existing incoming ≡ ok merged
    → incoming.internal_id ≢ ""
    → merged.internal_id ≡ incoming.internal_id
unfolding merged_values
merged-id existing incoming merged takes h named =
    rw (merged-identities existing incoming merged takes h)
      (merge_text-incoming existing.internal_id incoming.internal_id named)

pub merged-url :
    (existing incoming merged : Listing)
    → (is_detail_complete existing.completeness && not (is_detail_complete incoming.completeness))
      ≡ false
    → merge_listing existing incoming ≡ ok merged
    → incoming.url ≢ ""
    → merged.url ≡ incoming.url
unfolding merged_values
merged-url existing incoming merged takes h named =
    rw (merged-identities existing incoming merged takes h)
      (merge_text-incoming existing.url incoming.url named)

module _ (l : Listing) (now : ℕ) (db : Db) (a b : ListingRow) (valid : IsListing l) (t : IsTable db)
    (ma : In a db.listings) (mb : In b db.listings) (at_key : a.athome_key ≡ l.athome_key)
    (at_url : b.url ≡ l.url) (two : a.internal_id ≢ b.internal_id) (keyed : l.athome_key ≢ "")
    (addressed : l.url ≢ "") (takes_a : TakesUpdate a l) (takes_b : TakesUpdate b l) where
  store_update-raises :
      (r : ListingRow)
      → In r db.listings
      → TakesUpdate r l
      → store_listing (some r) l now db ≡ (err integrity_error, db)
  unfolding deserialize_listing
  store_update-raises r mr takes =
      let old = All-In (λ (s : ListingRow). IsListing s.payload) db.listings r t.valid mr in
      let (merged, merges, good) = merge_listing-IsListing r.payload l old valid in
      let key = merged-key r.payload l merged takes merges keyed in
      let url = merged-url r.payload l merged takes merges addressed in
      rw (old, merges)
        (update_existing-raises db t a b ma mb merged now (at_key ∙ sym key) (at_url ∙ sym url) two
          r.internal_id)

  store_listing-raises :
      store_listing (find (same_property l.athome_key l.url) db.listings) l now db
      ≡ (err integrity_error, db)
  store_listing-raises = elim (Option-cases (find (same_property l.athome_key l.url) db.listings)) [
    | inl absent ↦
        let miss =
          All-In (λ s. same_property l.athome_key l.url s ≡ false) db.listings a
            (find-none (same_property l.athome_key l.url) db.listings absent) ma in
        absurd (ground (arith, eq_iff a.athome_key l.athome_key))
    | inr (r, found) ↦
        let mr = find-In (same_property l.athome_key l.url) db.listings r found in
        let hit = find-holds (same_property l.athome_key l.url) db.listings r found in
        elim (chosen-eq db.listings t.distinct a b r l.athome_key l.url ma mb mr at_key at_url
          hit) [
            | inl e ↦ rw found (store_update-raises r mr (rw e takes_a))
            | inr e ↦ rw found (store_update-raises r mr (rw e takes_b))
          ]
  ]

-- Where one row of a well-formed table has the key of a valid listing and another row has its address
-- (key and address not empty, and neither row's detail shields it from the update), storing the
-- listing raises an IntegrityError and leaves the tables alone, but for the listing's agency: the
-- second UPDATE of `upsert_listing`, which is to merge into the owner of the key, fails as well.
pub upsert_listing-conflict :
    (l : Listing) (now : ℕ) (db : Db) (a b : ListingRow)
    → IsListing l
    → IsTable db
    → In a db.listings
    → In b db.listings
    → a.athome_key ≡ l.athome_key
    → b.url ≡ l.url
    → a.internal_id ≢ b.internal_id
    → l.athome_key ≢ ""
    → l.url ≢ ""
    → TakesUpdate a l
    → TakesUpdate b l
    → upsert_listing l now db ≡ (err integrity_error, with_agency l.agency db)
unfolding upsert_listing
upsert_listing-conflict l now db a b valid t ma mb at_key at_url two keyed addressed takes_a
      takes_b =
    let same = with_agency-listings l.agency db in
    store_listing-raises l now (with_agency l.agency db) a b valid
      (with_agency-IsTable l.agency db t) (rw same ma) (rw same mb) at_key at_url two keyed
      addressed takes_a takes_b
