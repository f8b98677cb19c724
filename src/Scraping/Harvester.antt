-- ===== src/Scraping/Harvester.antt =====
-- scraping/harvester.py. The fetch, the parser and the clock are arguments: what the fetch of each page
-- comes to, what the parser makes of a text (nothing where it raises), and the reading of the clock
-- before each page, in microseconds. Readings that are only logged are left out.

pub mod Gathered
use athome_japan_agent_harne.Common.{
  ℕ, zero, suc, ◌+◌, ◌-◌, ◌*◌, max, String, Bool, true, false, Option, none, some, List, [], ◌∷◌,
  leb, if◌then◌else◌,
}
use athome_japan_agent_harne.Common.Dict.{Dict, put, values}
use athome_japan_agent_harne.Scraping.Challenge.{detect_athome_challenge}

-- What `fetch_page` does: return a text, raise `BlockDetected`, or raise anything else.
pub data Fetched : Type 0 where
  html : String → Fetched
  blocked : Fetched
  failed : Fetched

pub data AbortReason : Type 0 where
  pages runtime block : AbortReason

-- A `ListingSummary`, of which the loop reads the id.
pub record Summary : Type 0 where
  pub internal_id : String
  pub content : String

pub record HarvestResult : Type 0 where
  pub listings : List Summary
  pub pages_scraped : ℕ
  pub partial : Bool
  pub abort_reason : Option AbortReason

abbrev pub minute : ℕ
minute = 60000000

-- `_runtime_exceeded`
unfoldable pub runtime_exceeded : ℕ → ℕ → ℕ → Bool
runtime_exceeded runtime_minutes started now = leb (runtime_minutes * minute) (now - started)

-- `listing_by_id[summary.internal_id] = summary` for each summary of a page
abbrev pub add_page : List Summary → Dict Summary → Dict Summary
add_page [] by_id = by_id
add_page (s ∷ page) by_id = add_page page (put s.internal_id s by_id)

abbrev pub finish : Dict Summary → ℕ → Option AbortReason → Bool → HarvestResult
finish by_id count abort_reason partial = record {
  listings = values by_id;
  pages_scraped = count;
  partial = partial;
  abort_reason = abort_reason;
}

abbrev pub stopped : Dict Summary → ℕ → AbortReason → Option HarvestResult
stopped by_id count reason = some (finish by_id count (some reason) true)

-- What a page comes to before its listings are looked at.
pub data PageOutcome : Type 0 where
  aborted : PageOutcome
  raised : PageOutcome
  parsed : List Summary → PageOutcome

module _ (fetch_page : ℕ → Fetched) (parse_page : String → Option (List Summary)) where
  abbrev pub read_parsed : Option (List Summary) → PageOutcome
  read_parsed none = raised
  read_parsed (some page) = parsed page

  abbrev pub read_html : Option String → String → PageOutcome
  read_html (some kind) text = aborted
  read_html none text = read_parsed (parse_page text)

  abbrev pub read_fetched : Fetched → PageOutcome
  read_fetched (html text) = read_html (detect_athome_challenge text) text
  read_fetched blocked = aborted
  read_fetched failed = aborted

  unfoldable pub read_page : ℕ → PageOutcome
  read_page page = read_fetched (fetch_page page)

module _ (fetch_page : ℕ → Fetched) (parse_page : String → Option (List Summary)) (clock : ℕ → ℕ)
    (max_pages runtime_minutes started : ℕ) where
  -- The end of the body of the loop, given what the rest of the loop returns.
  abbrev pub after_page :
      List Summary → ℕ → Dict Summary → ℕ → Option HarvestResult → Option HarvestResult
  after_page [] page by_id count rest = some (finish by_id count none false)
  after_page (s ∷ ss) page by_id count rest =
      if leb max_pages page then stopped by_id count pages else rest

  -- The loop from a page on: with the pages left in the range, the dict and the count so far. It
  -- returns nothing where the parser raises.
  unfoldable pub harvest_from : ℕ → ℕ → Dict Summary → ℕ → Option HarvestResult
  unfolding read_page runtime_exceeded
  harvest_from zero page by_id count = some (finish by_id count none false)
  harvest_from (suc n) page by_id count =
      if runtime_exceeded runtime_minutes started (clock page)
      then stopped by_id count runtime
      else elim (read_page fetch_page parse_page page) [
        | aborted ↦ stopped by_id count block
        | raised ↦ none
        | parsed summaries ↦
            after_page summaries page (add_page summaries by_id) (count + 1)
              (harvest_from n (page + 1) (add_page summaries by_id) (count + 1))
      ]

-- `Harvester.harvest`
unfoldable pub harvest :
    (ℕ → Fetched) → (String → Option (List Summary)) → (ℕ → ℕ) → ℕ → ℕ → ℕ → Option HarvestResult
unfolding harvest_from
harvest fetch_page parse_page clock max_pages runtime_minutes started =
    let limit = max 1 max_pages in
    harvest_from fetch_page parse_page clock limit runtime_minutes started limit 1 [] 0
