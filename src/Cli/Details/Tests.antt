-- ===== src/Cli/Details/Tests.antt =====
-- A run of `_scrape_details` of cli.py: one page that cannot be fetched, and one that is hydrated.
use athome_japan_agent_harne.Common.{none, List, [], ◌∷◌, ok, err}
use athome_japan_agent_harne.Common.Dict.{Dict}
use athome_japan_agent_harne.Models.{Listing, Value, text, summary_partial}
use athome_japan_agent_harne.Store.Db.{Db}
use athome_japan_agent_harne.Cli.Details.{Visit}

abbrev summary : Listing
summary = record {
  internal_id = "a";
  athome_key = "key-a";
  url = "url-a";
  completeness = summary_partial;
  detail_fetched_at = none;
  detail_fresh_until = none;
  agency = none;
  price = record {
    rent = 80000;
    management_fee = 0;
    deposit = none;
    key_money = none;
    deposit_raw = none;
    key_money_raw = none;
  };
  fields = ("title", text "Koenji") ∷ ("station", text "Koenji") ∷ [];
  detail = none;
}

abbrev observed : Dict Value
observed = ("title", text "Koenji Heights") ∷ ("station", text "") ∷ []

abbrev unreachable : Visit
unreachable = record {
  read_at = 5;
  fetch = err "TimeoutError";
  detail_parser = λ html. err "ValueError";
  extract_agency = λ html. ok none;
  fetched_at = 6;
  stored_at = 7;
  extract_cards = λ html. ok [];
}

abbrev reachable : Visit
reachable = record unreachable {
  fetch = ok "<html>";
  detail_parser = λ html. ok (record summary { fields = observed });
}

abbrev empty : Db
empty = record { listings = []; agencies = []; feedback = []; jobs = []; next_job = 0 }

abbrev visits : List (Listing × Visit)
visits = (summary, unreachable) ∷ (summary, reachable) ∷ []
