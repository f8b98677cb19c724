-- ===== src/Scraping/Tests.antt =====
-- Runs of the harvester and of a proxy provider.
use athome_japan_agent_harne.Common.{
  ℕ, zero, suc, ◌+◌, ◌-◌, ◌*◌, min, max, String, ◌==◌, ◌≡◌, ◌≢◌, refl, false, Option, none, some,
  List, [], ◌∷◌, arith, if◌then◌else◌,
}
use athome_japan_agent_harne.Scraping.Challenge.{detect_athome_challenge}
use athome_japan_agent_harne.Scraping.Harvester.{
  Fetched, html, Summary, HarvestResult, read_page, harvest_from, harvest, runtime_exceeded,
}
use athome_japan_agent_harne.Scraping.Harvester.Gathered.{
  IsHarvest, harvest-IsHarvest, harvest_returns,
}
use athome_japan_agent_harne.Scraping.Proxy.{
  Provider, get_proxy, report_block, report_blocks, reset,
}
use athome_japan_agent_harne.Scraping.Proxy.Rotation.{
  attempts, report_blocks-attempts, get_proxy-report_block,
}

abbrev summary : String → String → Summary
summary i c = record { internal_id = i; content = c }

-- Two pages with listings, of which one is on both, and an empty one.
abbrev site : ℕ → Fetched
site (suc zero) = html "p1"
site (suc (suc zero)) = html "p2"
site _ = html "end"

abbrev parse : String → Option (List Summary)
parse text =
    if text == "p1"
    then some (summary "a" "1" ∷ summary "b" "1" ∷ [])
    else if text == "p2"
    then some (summary "b" "2" ∷ [])
    else some []

abbrev clock : ℕ → ℕ
clock page = page * 1000

abbrev harvested : HarvestResult
harvested = record {
  listings = summary "a" "1" ∷ summary "b" "2" ∷ [];
  pages_scraped = 3;
  partial = false;
  abort_reason = none;
}

harvests : harvest site parse clock 5 30 0 ≡ some harvested
unfolding harvest harvest_from read_page runtime_exceeded detect_athome_challenge
harvests = refl

harvest-IsHarvest_example : IsHarvest site parse (max 1 5) 1 [] 0 harvested
harvest-IsHarvest_example = harvest-IsHarvest site parse clock 5 30 0 harvested harvests

parse_returns : (text : String) → parse text ≢ none
parse_returns text e = ground arith

harvest_returns_example :
    (r : HarvestResult) × (harvest site parse clock 5 30 0 ≡ some r)
    × IsHarvest site parse (max 1 5) 1 [] 0 r
harvest_returns_example = harvest_returns site parse clock 5 30 0 parse_returns

abbrev provider : Provider
provider = record { pool = "p" ∷ "q" ∷ []; proxy_retries = 3; retries_used = 0 }

report_blocks-attempts_example :
    (attempts (report_blocks 5 provider).0 ≡ min 5 (3 - 0))
    × ((report_blocks 5 provider).1.retries_used ≡ 0 + min 5 (3 - 0))
report_blocks-attempts_example =
    report_blocks-attempts 5 provider (λ e. absurd (omega arith)) (omega arith)

abbrev rotated : Provider
rotated = record { pool = "p" ∷ "q" ∷ []; proxy_retries = 3; retries_used = 1 }

rotates : report_block provider ≡ (some "p", rotated)
unfolding report_block
rotates = refl

get_proxy-report_block_example : (get_proxy rotated ≡ some "p") × (get_proxy (reset rotated) ≡ none)
get_proxy-report_block_example = get_proxy-report_block provider rotated "p" rotates
