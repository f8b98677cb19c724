-- ===== src/Cli/Details/Outcomes.antt =====
-- What `_scrape_details` of cli.py returns for the summaries it is given.
use athome_japan_agent_harne.Common.{
  ℕ, ◌+◌, ◌≡◌, String, Bool, true, false, not, ◌⊎◌, Option, none, some, List, [], ◌∷◌,
  if◌then◌else◌,
}
use athome_japan_agent_harne.Models.{DetailStatus, Listing, summary_partial}
use athome_japan_agent_harne.Store.Db.{Db}
use athome_japan_agent_harne.Cli.Details.{Visit, Details, scrape_detail}
use athome_japan_agent_harne.Cli.Details.Hydrated.{IsHydrated, Cause}

-- The summary, marked as partial with the reason.
abbrev pub marked : Listing → String → Listing
marked summary reason = record summary {
  completeness = summary_partial;
  detail = some (record { listing_detail = false; failure_reason = some reason });
}

-- Hydrated, or the summary with the reason of the failure.
abbrev pub IsDetailOf : Visit → Listing → Db → Listing → Type 0
IsDetailOf v summary db d =
    IsHydrated v summary db d
    ⊎ ((reason : String) × Cause v summary reason × (d ≡ marked summary reason))

abbrev is_failure : Option DetailStatus → Bool
is_failure none = true
is_failure (some d) = not d.listing_detail

abbrev pub failures : List Listing → ℕ
failures [] = 0
failures (d ∷ details) = (if is_failure d.detail then 1 else 0) + failures details

-- Each summary meets the tables that the ones before it left.
abbrev pub Aligned : List (Listing × Visit) → List Listing → Db → Db → Type 0
Aligned [] [] db after = after ≡ db
Aligned ((summary, v) ∷ summaries) (d ∷ details) db after =
    IsDetailOf v summary db d × Aligned summaries details (scrape_detail v summary db).1 after
Aligned _ _ db after = ⊥

-- What is right of a whole run.
abbrev pub IsScrape : List (Listing × Visit) → Db → Details → Type 0
IsScrape summaries db ((details, failed), after) =
    Aligned summaries details db after × (failed ≡ failures details)
