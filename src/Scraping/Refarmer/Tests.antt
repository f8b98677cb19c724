-- ===== src/Scraping/Refarmer/Tests.antt =====
-- Runs of scraping/session_refarmer.py: blocked, farmed, and let through.
use athome_japan_agent_harne.Common.{ℕ, zero, suc, ◌≡◌, refl, Option, none, some, List, [], ◌∷◌, ok}
use athome_japan_agent_harne.Scraping.Http.{Handoff}
use athome_japan_agent_harne.Scraping.Refarmer.{
  Built, Called, returned, blocked, Refarmer, new_refarmer, fetch, refarm_from, rebind, Use,
  fetch_page, close_session, run_uses,
}
use athome_japan_agent_harne.Scraping.Refarmer.Loop.{IsTidy}
use athome_japan_agent_harne.Scraping.Refarmer.Sessions.{FetchPair, fetch-IsFetch, run_uses-IsTidy}

abbrev blocked_once : ℕ → Built → Called
blocked_once zero a = blocked "403"
blocked_once (suc n) a = returned "<html>"

abbrev session : Handoff
session = record { proxy_url = none }

abbrev farms : ℕ → Option Handoff
farms n = some session

abbrev fresh : Refarmer
fresh = new_refarmer 1

let_through : fetch blocked_once farms fresh ≡ (
  ok "<html>",
  record fresh {
    active = some (record { number = 1; bound_to = some session });
    handoff = some session;
    built = 2;
    closed = 0 ∷ [];
    calls = 2;
    farms = 1;
  },
)
unfolding fetch refarm_from rebind
let_through = refl

fetch-IsFetch_example : FetchPair blocked_once farms fresh (fetch blocked_once farms fresh)
fetch-IsFetch_example = fetch-IsFetch blocked_once farms fresh refl

abbrev uses : List Use
uses = fetch_page ∷ fetch_page ∷ close_session ∷ []

run_uses-IsTidy_example : IsTidy (run_uses blocked_once farms uses fresh)
run_uses-IsTidy_example = run_uses-IsTidy blocked_once farms uses fresh refl
