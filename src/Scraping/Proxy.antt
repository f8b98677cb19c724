-- ===== src/Scraping/Proxy.antt =====
-- scraping/proxy/base.py: direct first, then one candidate per block, within a budget. A provider is its
-- pool, its budget and the count of the attempts used; webshare.py has a pool of one.
pub mod Rotation
use athome_japan_agent_harne.Common.{
  ℕ, zero, suc, ◌+◌, ◌-◌, min, String, Bool, true, false, ◌||◌, Option, none, some, List, [], ◌∷◌,
  leb, eqb, length, if◌then◌else◌,
}

pub record Provider : Type 0 where
  pub pool : List String
  pub proxy_retries : ℕ
  pub retries_used : ℕ

-- `pool[index]`, where the index is in range
abbrev pub get_elem? : List String → ℕ → Option String
get_elem? [] i = none
get_elem? (p ∷ pool) zero = some p
get_elem? (p ∷ pool) (suc i) = get_elem? pool i

abbrev pub candidate : List String → ℕ → Option String
candidate pool used = get_elem? pool (min used (length pool) - 1)

unfoldable pub get_proxy : Provider → Option String
get_proxy p =
    if eqb p.retries_used 0 || eqb (length p.pool) 0 then none else candidate p.pool p.retries_used

unfoldable pub report_block : Provider → Option String × Provider
report_block p =
    if leb p.proxy_retries p.retries_used || eqb (length p.pool) 0
    then (none, p)
    else (candidate p.pool (p.retries_used + 1), record p { retries_used = p.retries_used + 1 })

unfoldable pub reset : Provider → Provider
reset p = record p { retries_used = 0 }

-- `report_block` again and again, with what it answers each time.
unfoldable pub report_blocks : ℕ → Provider → List (Option String) × Provider
unfolding report_block
report_blocks zero p = ([], p)
report_blocks (suc n) p =
    let (answer, q) = report_block p in
    let (answers, r) = report_blocks n q in (answer ∷ answers, r)
