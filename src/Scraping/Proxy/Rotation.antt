-- ===== src/Scraping/Proxy/Rotation.antt =====
-- The retry budget of scraping/proxy/base.py over a run of blocks.
use athome_japan_agent_harne.Common.{
  ℕ, zero, suc, ◌+◌, ◌-◌, ◌≤◌, ◌<◌, min, String, ◌≡◌, ◌≢◌, ◌⊎◌, leb→le, refl, ap, false, ◌||◌,
  Option, none, some, List, [], ◌∷◌, inl, inr, arith, leb, eqb, length, Bool-cases,
}
use athome_japan_agent_harne.Scraping.Proxy.{
  Provider, get_elem?, candidate, get_proxy, report_block, report_blocks, reset,
}

-- How many of the answers name a proxy.
abbrev pub attempts : List (Option String) → ℕ
attempts [] = 0
attempts (none ∷ answers) = attempts answers
attempts (some p ∷ answers) = suc (attempts answers)

get_elem?_there :
    (pool : List String) (i : ℕ) → i < length pool → (p : String) × (get_elem? pool i ≡ some p)
get_elem?_there [] i h = absurd (omega arith)
get_elem?_there (p ∷ pool) zero h = (p, refl)
get_elem?_there (p ∷ pool) (suc i) h = get_elem?_there pool i (omega arith)

-- The two ways of a report.
report_block-cases :
    (p : Provider)
    → length p.pool ≢ 0
    → ((p.proxy_retries ≤ p.retries_used) × (report_block p ≡ (none, p)))
      ⊎ ((p.retries_used < p.proxy_retries)
          × ((s : String) × (report_block p
                ≡ (some s, record p { retries_used = p.retries_used + 1 }))))
unfolding report_block
report_block-cases p filled =
    let some_pool : eqb (length p.pool) 0 ≡ false = ground arith in
    elim (Bool-cases (leb p.proxy_retries p.retries_used)) [
      | inl spent ↦ inl (leb→le p.proxy_retries p.retries_used spent, rw spent refl)
      | inr left ↦
          let (s, there) =
            get_elem?_there p.pool (min (p.retries_used + 1) (length p.pool) - 1) (omega arith) in
          inr (ground arith, (s, rw (left, some_pool, there) refl))
    ]

-- A run of blocks on a provider with proxies in its pool, within its budget, is answered with as many
-- proxies as the budget has left, or with one for each block if there are fewer, and with nothing from
-- then on; the attempts used stay within the budget.
pub report_blocks-attempts :
    (n : ℕ) (p : Provider)
    → length p.pool ≢ 0
    → p.retries_used ≤ p.proxy_retries
    → (attempts (report_blocks n p).0 ≡ min n (p.proxy_retries - p.retries_used))
      × ((report_blocks n p).1.retries_used
          ≡ p.retries_used + min n (p.proxy_retries - p.retries_used))
unfolding report_blocks
report_blocks-attempts zero p filled fits = (omega arith, omega arith)
report_blocks-attempts (suc n) p filled fits = elim (report_block-cases p filled) [
  | inl (spent, e) ↦
      let (answers, count) = report_blocks-attempts n p filled fits in
      rw e (omega arith, omega arith)
  | inr (left, (s, e)) ↦
      let next : Provider = record p { retries_used = p.retries_used + 1 } in
      let (answers, count) = report_blocks-attempts n next filled (omega arith) in
      rw e (omega arith, omega arith)
]

-- Between blocks the provider keeps to the proxy that it answered last, and a reset makes it direct.
pub get_proxy-report_block :
    (p q : Provider) (s : String)
    → report_block p ≡ (some s, q)
    → (get_proxy q ≡ some s) × (get_proxy (reset q) ≡ none)
unfolding report_block get_proxy reset
get_proxy-report_block p q s h =
    elim (Bool-cases (leb p.proxy_retries p.retries_used || eqb (length p.pool) 0)) [
      | inl spent ↦
          let same : (none, p) ≡ (some s, q) = rw spent at h in
          let miss : none ≡ some s = ap (λ o. o.0) same in absurd (cc)
      | inr left ↦
          let next : Provider = record p { retries_used = p.retries_used + 1 } in
          let same : (candidate p.pool (p.retries_used + 1), next) ≡ (some s, q) = rw left at h in
          let first : candidate p.pool (p.retries_used + 1) ≡ some s = ap (λ o. o.0) same in
          let second : next ≡ q = ap (λ o. o.1) same in
          let filled : eqb (length p.pool) 0 ≡ false = ground arith in
          let used : eqb (p.retries_used + 1) 0 ≡ false = ground arith in
          rw (← second) (rw (used, filled) first, refl)
    ]
