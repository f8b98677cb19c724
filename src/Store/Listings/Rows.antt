-- ===== src/Store/Listings/Rows.antt =====
-- The listing rows of store/sqlite_store.py, pairwise apart in id, key and address, and what an UPDATE
-- that the UNIQUE constraints let through does to them.
use athome_japan_agent_harne.Common.{
  ℕ, String, ◌≡◌, ◌≢◌, sym, ◌∙◌, Bool, true, false, List, [], ◌∷◌, ◌++◌, inl, inr, arith,
  if◌then◌else◌, update, All, All-append, Bool-cases, eq_iff, ne-of-eq_false,
}
use athome_japan_agent_harne.Models.{Listing}
use athome_japan_agent_harne.Store.Db.{ListingRow}
use athome_japan_agent_harne.Store.Listings.{
  has_internal_id, clashes, url_clashes, write_row, write_url,
}

pub record RowDiffers (r s : ListingRow) : Type 0 where
  pub id : r.internal_id ≢ s.internal_id
  pub key : r.athome_key ≢ s.athome_key
  pub url : r.url ≢ s.url

-- The primary key, `UNIQUE (athome_key)` and `UNIQUE (url)`.
abbrev pub DistinctRows : List ListingRow → Type 0
DistinctRows [] = Unit
DistinctRows (r ∷ rows) = All (RowDiffers r) rows × DistinctRows rows

pub DistinctRows-snoc :
    (rows : List ListingRow) (r : ListingRow)
    → DistinctRows rows
    → All (λ s. RowDiffers s r) rows
    → DistinctRows (rows ++ r ∷ [])
DistinctRows-snoc [] r d h = (tt, tt)
DistinctRows-snoc (s ∷ rows) r (away, d) (sr, h) =
    (All-append (RowDiffers s) rows (r ∷ []) away (sr, tt), DistinctRows-snoc rows r d h)

-- An update of one row, which keeps the row apart from each row that is free of the clash.
module _ (canonical : String) (set : ListingRow → ListingRow) (clash : ListingRow → Bool) where
  abbrev updated : ListingRow → ListingRow
  updated r = if has_internal_id canonical r then set r else r

  abbrev pub Apart : Type 0
  Apart =
      (r s : ListingRow)
      → RowDiffers r s
      → clash r ≡ false
      → clash s ≡ false
      → RowDiffers (updated r) (updated s)

  DistinctRows-update_head :
      Apart
      → (r : ListingRow) (rows : List ListingRow) → clash r ≡ false
      → All (λ s. clash s ≡ false) rows
      → All (RowDiffers r) rows
      → All (RowDiffers (updated r)) (update (has_internal_id canonical) set rows)
  DistinctRows-update_head apart r [] free frees away = tt
  DistinctRows-update_head apart r (s ∷ rows) free (free_s, frees) (d, away) =
      (apart r s d free free_s, DistinctRows-update_head apart r rows free frees away)

  pub DistinctRows-update :
      Apart
      → (rows : List ListingRow) → All (λ s. clash s ≡ false) rows
      → DistinctRows rows
      → DistinctRows (update (has_internal_id canonical) set rows)
  DistinctRows-update apart [] frees d = tt
  DistinctRows-update apart (r ∷ rows) (free, frees) (away, d) = (
    DistinctRows-update_head apart r rows free frees away,
    DistinctRows-update apart rows frees d,
  )

-- A row other than the canonical one, if free of the clash, has neither the key nor the address.
off_clash :
    (canonical key url : String) (r : ListingRow)
    → clashes canonical key url r ≡ false
    → has_internal_id canonical r ≡ false
    → (r.athome_key ≢ key) × (r.url ≢ url)
off_clash canonical key url r free other =
    (ne-of-eq_false r.athome_key key (ground arith), ne-of-eq_false r.url url (ground arith))

off_url_clash :
    (canonical url : String) (r : ListingRow)
    → url_clashes canonical url r ≡ false
    → has_internal_id canonical r ≡ false
    → r.url ≢ url
off_url_clash canonical url r free other = ne-of-eq_false r.url url (ground arith)

at_canonical :
    (canonical : String) (r : ListingRow)
    → has_internal_id canonical r ≡ true
    → r.internal_id ≡ canonical
at_canonical canonical r h = (eq_iff r.internal_id canonical).0 h

pub write_row-Apart :
    (canonical : String) (l : Listing) (now : ℕ)
    → Apart canonical (write_row l now) (clashes canonical l.athome_key l.url)
write_row-Apart canonical l now r s d free_r free_s =
    elim (Bool-cases (has_internal_id canonical r)) [
      | inl er ↦ elim (Bool-cases (has_internal_id canonical s)) [
        | inl es ↦ absurd (d.id (at_canonical canonical r er ∙ sym (at_canonical canonical s es)))
        | inr es ↦
            let (k, u) = off_clash canonical l.athome_key l.url s free_s es in
            rw (er, es) (record { id = d.id; key = λ e. k (sym e); url = λ e. u (sym e) })
      ]
      | inr er ↦
          let (k, u) = off_clash canonical l.athome_key l.url r free_r er in
          elim (Bool-cases (has_internal_id canonical s)) [
            | inl es ↦ rw (er, es) (record { id = d.id; key = k; url = u })
            | inr es ↦ rw (er, es) d
          ]
    ]

pub write_url-Apart :
    (canonical : String) (l : Listing) (now : ℕ)
    → Apart canonical (write_url l now) (url_clashes canonical l.url)
write_url-Apart canonical l now r s d free_r free_s =
    elim (Bool-cases (has_internal_id canonical r)) [
      | inl er ↦ elim (Bool-cases (has_internal_id canonical s)) [
        | inl es ↦ absurd (d.id (at_canonical canonical r er ∙ sym (at_canonical canonical s es)))
        | inr es ↦
            let u = off_url_clash canonical l.url s free_s es in
            rw (er, es) (record { id = d.id; key = d.key; url = λ e. u (sym e) })
      ]
      | inr er ↦
          let u = off_url_clash canonical l.url r free_r er in
          elim (Bool-cases (has_internal_id canonical s)) [
            | inl es ↦ rw (er, es) (record { id = d.id; key = d.key; url = u })
            | inr es ↦ rw (er, es) d
          ]
    ]
