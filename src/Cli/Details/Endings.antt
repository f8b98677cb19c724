-- ===== src/Cli/Details/Endings.antt =====
-- How the scraping of one summary by `_scrape_details` of cli.py ends.
use athome_japan_agent_harne.Common.{
  ◌≡◌, refl, String, false, inl, inr, Option, none, some, List, [], ◌∷◌, is_some, Result, ok, err,
  ◌>>=◌, Bool-cases,
}
use athome_japan_agent_harne.Models.{Agency, HydrationJob, Listing, ValidationError, model_validate}
use athome_japan_agent_harne.Store.Db.{Db, StoreError}
use athome_japan_agent_harne.Store.Queue.{Outcome, enqueue_hydration}
use athome_japan_agent_harne.Store.Listings.{upsert_listing, get_fresh_detail}
use athome_japan_agent_harne.Scraping.Challenge.{detect_athome_challenge}
use athome_japan_agent_harne.Scraping.Cards.{Card, Intents, ingest_recommendation_cards}
use athome_japan_agent_harne.Cli.Details.{
  scrape_detail, Visit, hydrate_detail, complete_values, validated, complete_detail, after_enqueue,
  enqueue_all, after_ingest, after_upsert, store_hydrated, after_agency, misidentified, read_parsed,
  read_html, after_cached,
}
use athome_japan_agent_harne.Cli.Details.Hydrated.{
  IsMerge, not_fetched, page_refused, not_parsed, no_agency, no_cards, not_valid, not_stored,
  IsHydrated, Ends, Merges, hydrate_detail-Merges, model_validate-same,
}

module _ (v : Visit) (summary : Listing) (db : Db) where
  cached-Ends :
      (source : Listing) (r : Result String Listing)
      → get_fresh_detail db summary.athome_key v.read_at ≡ ok (some source)
      → Merges summary source r
      → Ends v summary db r
  cached-Ends source (ok l) found w = record { source = source; merged = w; origin = inl found }
  cached-Ends source (err reason) found e = not_valid e

  module _ (html : String) (fetched : v.fetch ≡ ok html) where
    enqueue_all-Ends :
        (d : Listing) (intents : Intents) (now : Db)
        → IsHydrated v summary db d
        → Ends v summary db (enqueue_all intents d now).0
    unfolding enqueue_all
    enqueue_all-Ends d [] now w = w
    enqueue_all-Ends d ((intent, at) ∷ intents) now w =
        after_enqueue-Ends (enqueue_hydration intent 3 at now)
          (enqueue_all-Ends d intents (enqueue_hydration intent 3 at now).1 w)
      where
        after_enqueue-Ends :
            (o : Outcome (Option HydrationJob))
            → Ends v summary db (enqueue_all intents d o.1).0
            → Ends v summary db (after_enqueue (enqueue_all intents d) o).0
        after_enqueue-Ends (ok job, after) rest = rest
        after_enqueue-Ends (err e, after) rest = not_stored e refl

    after_ingest-Ends :
        (d : Listing) (o : Result StoreError Intents × Db)
        → IsHydrated v summary db d
        → Ends v summary db (after_ingest d o).0
    after_ingest-Ends d (ok intents, now) w = enqueue_all-Ends d intents now w
    after_ingest-Ends d (err e, now) w = not_stored e refl

    after_upsert-Ends :
        (d : Listing) (cards : Result String (List Card)) (o : Outcome String)
        → v.extract_cards html ≡ cards
        → IsHydrated v summary db d
        → Ends v summary db (after_upsert d cards o).0
    after_upsert-Ends d (ok cards) (ok i, now) read w =
        after_ingest-Ends d (ingest_recommendation_cards cards now) w
    after_upsert-Ends d (err e) (ok i, now) read w = no_cards html fetched read
    after_upsert-Ends d cards (err e, now) read w = not_stored e refl

    store_hydrated-Ends :
        (r : Result String Listing) (now : Db)
        → Ends v summary db r
        → Ends v summary db (store_hydrated v html r now).0
    store_hydrated-Ends (err e) now w = w
    store_hydrated-Ends (ok d) now w =
        after_upsert-Ends d (v.extract_cards html) (upsert_listing d v.stored_at now) refl w

    module _ (no_challenge : is_some (detect_athome_challenge html) ≡ false) (parsed : Listing)
        (read : v.detail_parser html ≡ ok parsed)
        (identified : misidentified summary parsed ≡ false) where
      complete_detail-Ends :
          (agency : Option Agency) (l : Listing) (r : Result ValidationError Listing)
          → v.extract_agency html ≡ ok agency
          → model_validate (complete_values agency v.fetched_at l) ≡ r
          → IsMerge summary parsed l
          → Ends v summary db (validated r)
      complete_detail-Ends agency l (err e) extracted h w = not_valid refl
      complete_detail-Ends agency l (ok n) extracted h w =
          let same = model_validate-same (complete_values agency v.fetched_at l) n h in
          rw same (record {
            source = parsed;
            merged = record {
              same_id = w.same_id;
              same_key = w.same_key;
              same_url = w.same_url;
              status = refl;
              price = w.price;
              fields = w.fields;
            };
            origin = inr (html, fetched, no_challenge, read, identified, extracted, refl);
          })

      completed-Ends :
          (agency : Option Agency) (r : Result String Listing)
          → v.extract_agency html ≡ ok agency
          → Merges summary parsed r
          → Ends v summary db (r >>= complete_detail agency v.fetched_at)
      unfolding complete_detail
      completed-Ends agency (err reason) extracted e = not_valid e
      completed-Ends agency (ok l) extracted w =
          complete_detail-Ends agency l (model_validate (complete_values agency v.fetched_at l))
            extracted refl w

      after_agency-Ends :
          (agency : Result String (Option Agency))
          → v.extract_agency html ≡ agency
          → Ends v summary db (after_agency v summary parsed agency)
      after_agency-Ends (err e) extracted = no_agency html fetched extracted
      after_agency-Ends (ok agency) extracted =
          completed-Ends agency (hydrate_detail summary parsed) extracted
            (hydrate_detail-Merges summary parsed)

    read_parsed-Ends :
        (r : Result String Listing) (now : Db)
        → is_some (detect_athome_challenge html) ≡ false
        → v.detail_parser html ≡ r
        → Ends v summary db (read_parsed v summary html r now).0
    read_parsed-Ends (err e) now no_challenge read = not_parsed html fetched read
    read_parsed-Ends (ok parsed) now no_challenge read =
        elim (Bool-cases (misidentified summary parsed)) [
          | inl e ↦ rw e (page_refused html fetched (inr (parsed, read, e)) refl)
          | inr e ↦ rw e (
              store_hydrated-Ends (after_agency v summary parsed (v.extract_agency html)) now
                (after_agency-Ends no_challenge parsed read e (v.extract_agency html) refl))
        ]

  read_html-Ends :
      (r : Result String String) (now : Db)
      → v.fetch ≡ r
      → Ends v summary db (read_html v summary r now).0
  read_html-Ends (err e) now fetched = not_fetched fetched
  read_html-Ends (ok html) now fetched =
      elim (Bool-cases (is_some (detect_athome_challenge html))) [
        | inl e ↦ rw e (page_refused html fetched (inl e) refl)
        | inr e ↦ rw e (read_parsed-Ends html fetched (v.detail_parser html) now e refl)
      ]

  after_cached-Ends :
      (r : Result StoreError (Option Listing))
      → get_fresh_detail db summary.athome_key v.read_at ≡ r
      → Ends v summary db (after_cached v summary r db).0
  after_cached-Ends (err e) found = not_stored e refl
  after_cached-Ends (ok (some source)) found =
      cached-Ends source (hydrate_detail summary source) found
        (hydrate_detail-Merges summary source)
  after_cached-Ends (ok none) found = read_html-Ends v.fetch db refl

  pub scrape_detail-Ends : Ends v summary db (scrape_detail v summary db).0
  unfolding scrape_detail
  scrape_detail-Ends = after_cached-Ends (get_fresh_detail db summary.athome_key v.read_at) refl
