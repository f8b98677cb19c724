-- ===== src/Scraping/Cards.antt =====
-- scraping/recommendation_cards.py: cards become summaries in the store and intents to hydrate them. A card
-- comes with the summary that `normalize_recommendation_card` makes of it, and with the readings of the
-- store's clock when its summary is stored and when its job is enqueued.
use athome_japan_agent_harne.Common.{
  ℕ, String, ◌==◌, List, [], ◌∷◌, any, if◌then◌else◌, Result, ok, err,
}
use athome_japan_agent_harne.Models.{Listing, HydrationIntent}
use athome_japan_agent_harne.Store.Db.{Db, StoreError}
use athome_japan_agent_harne.Store.Queue.{Outcome}
use athome_japan_agent_harne.Store.Listings.{upsert_listing}

pub record Card : Type 0 where
  pub athome_key : String
  pub summary : Listing
  pub stored_at : ℕ
  pub enqueued_at : ℕ

-- The loop that fills `unique`, given the keys that are in it.
unfoldable pub unique_cards : List String → List Card → List Card
unique_cards seen [] = []
unique_cards seen (c ∷ cards) =
    let passed_over = unique_cards seen cards in
    let rest = unique_cards (c.athome_key ∷ seen) cards in
    if any (λ k. k == c.athome_key) seen then passed_over else c ∷ rest

-- An intent, with the reading of the clock when it is enqueued.
abbrev pub Intents : Type 0
Intents = List (HydrationIntent × ℕ)

abbrev pub intent_of : Card → String → HydrationIntent × ℕ
intent_of c internal_id = (
  record { athome_key = c.summary.athome_key; internal_id = internal_id; url = c.summary.url },
  c.enqueued_at,
)

abbrev pub add_intent :
    HydrationIntent × ℕ → Result StoreError Intents × Db → Result StoreError Intents × Db
add_intent intent (ok intents, db) = (ok (intent ∷ intents), db)
add_intent intent (err e, db) = (err e, db)

abbrev pub after_card :
    Card → (Db → Result StoreError Intents × Db) → Outcome String → Result StoreError Intents × Db
after_card c rest (err e, db) = (err e, db)
after_card c rest (ok internal_id, db) = add_intent (intent_of c internal_id) (rest db)

-- `for summary in unique.values()`
unfoldable pub store_cards : List Card → Db → Result StoreError Intents × Db
store_cards [] db = (ok [], db)
store_cards (c ∷ cards) db =
    after_card c (store_cards cards) (upsert_listing c.summary c.stored_at db)

unfoldable pub ingest_recommendation_cards : List Card → Db → Result StoreError Intents × Db
unfolding unique_cards store_cards
ingest_recommendation_cards cards db = store_cards (unique_cards [] cards) db
