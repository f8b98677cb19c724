-- ===== src/Scraping/Harvester/Gathered.antt =====
-- What a harvest of scraping/harvester.py brings home.
use athome_japan_agent_harne.Common.{
  ℕ, zero, suc, ◌+◌, ◌≤◌, max, String, ◌≡◌, ◌≢◌, ◌⊎◌, refl, true, false, Option, none, some, List,
  [], ◌∷◌, inl, inr, arith, leb, is_some, Bool-cases, Option-cases,
}
use athome_japan_agent_harne.Common.Dict.{Dict, values}
use athome_japan_agent_harne.Scraping.Challenge.{detect_athome_challenge}
use athome_japan_agent_harne.Scraping.Harvester.{
  Fetched, html, blocked, failed, read_html, read_fetched, Summary, HarvestResult, AbortReason,
  PageOutcome, aborted, raised, parsed, read_page, add_page, harvest_from, harvest,
  runtime_exceeded, finish, stopped, pages, runtime, block,
}

module _ (fetch_page : ℕ → Fetched) (parse_page : String → Option (List Summary)) where
  abbrev listings_of : PageOutcome → List Summary
  listings_of (parsed summaries) = summaries
  listings_of _ = []

  -- The listings of a run of pages, the later ones over the earlier ones.
  abbrev pub gather : ℕ → ℕ → Dict Summary → Dict Summary
  gather zero page by_id = by_id
  gather (suc k) page by_id =
      gather k (page + 1) (add_page (listings_of (read_page fetch_page parse_page page)) by_id)

  -- The result of a loop that starts at `page`, with `count` pages behind it and `n` ahead.
  pub record IsHarvest (n page : ℕ) (by_id : Dict Summary) (count : ℕ) (r : HarvestResult)
      : Type 0 where
    pub scraped : ℕ
    pub counted : r.pages_scraped ≡ count + scraped
    pub bounded : scraped ≤ n
    pub gathered : r.listings ≡ values (gather scraped page by_id)
    pub flagged : r.partial ≡ is_some r.abort_reason
    pub complete :
        r.partial ≡ false
        → (last : ℕ) × (scraped ≡ last + 1)
          × (read_page fetch_page parse_page (page + last) ≡ parsed [])

-- To split on the outcome of a page and keep the equation.
PageOutcome-cases :
    (o : PageOutcome) → (o ≡ aborted) ⊎ ((o ≡ raised) ⊎ ((ss : List Summary) × (o ≡ parsed ss)))
PageOutcome-cases aborted = inl refl
PageOutcome-cases raised = inr (inl refl)
PageOutcome-cases (parsed ss) = inr (inr (ss, refl))

module _ (fetch_page : ℕ → Fetched) (parse_page : String → Option (List Summary)) (clock : ℕ → ℕ)
    (max_pages runtime_minutes started : ℕ) where
  stopped-IsHarvest :
      (n page : ℕ) (by_id : Dict Summary) (count : ℕ) (reason : AbortReason) (r : HarvestResult)
      → stopped by_id count reason ≡ some r
      → IsHarvest fetch_page parse_page n page by_id count r
  stopped-IsHarvest n page by_id count reason r h =
      let e : r ≡ finish by_id count (some reason) true = cc in
      rw e (record {
        scraped = 0;
        counted = omega arith;
        bounded = omega arith;
        gathered = refl;
        flagged = refl;
        complete = λ c. absurd (cc);
      })

  -- One page more, which parsed to `ss`.
  page-IsHarvest :
      (n page : ℕ) (by_id : Dict Summary) (count : ℕ) (ss : List Summary) (r : HarvestResult)
      → read_page fetch_page parse_page page ≡ parsed ss
      → IsHarvest fetch_page parse_page n (page + 1) (add_page ss by_id) (count + 1) r
      → IsHarvest fetch_page parse_page (suc n) page by_id count r
  page-IsHarvest n page by_id count ss r read w = record {
    scraped = suc w.scraped;
    counted = omega (arith, w.counted);
    bounded = omega (arith, w.bounded);
    gathered = rw read w.gathered;
    flagged = w.flagged;
    complete = λ c.
        let (last, e, empty) = w.complete c in
        (
          last + 1,
          omega arith,
          let same : page + (last + 1) ≡ page + 1 + last = omega arith in rw same empty,
        );
  }

  -- An empty page ends the data.
  empty-IsHarvest :
      (n page : ℕ) (by_id : Dict Summary) (count : ℕ) (r : HarvestResult)
      → read_page fetch_page parse_page page ≡ parsed []
      → r ≡ finish by_id (count + 1) none false
      → IsHarvest fetch_page parse_page (suc n) page by_id count r
  empty-IsHarvest n page by_id count r read e = rw e (record {
    scraped = 1;
    counted = refl;
    bounded = omega arith;
    gathered = rw read refl;
    flagged = refl;
    complete = λ _. (0, refl, let same : page + 0 ≡ page = omega arith in rw same read);
  })

  harvest_from-IsHarvest :
      (n page : ℕ) (by_id : Dict Summary) (count : ℕ) (r : HarvestResult)
      → 1 ≤ n
      → page + n ≡ max_pages + 1
      → harvest_from fetch_page parse_page clock max_pages runtime_minutes started n page by_id
          count
        ≡ some r
      → IsHarvest fetch_page parse_page n page by_id count r
  unfolding harvest_from
  harvest_from-IsHarvest zero page by_id count r some_left fits h = absurd (omega arith)
  harvest_from-IsHarvest (suc n) page by_id count r some_left fits h =
      elim (Bool-cases (runtime_exceeded runtime_minutes started (clock page))) [
        | inl late ↦ stopped-IsHarvest (suc n) page by_id count runtime r (rw late at h)
        | inr in_time ↦ elim (PageOutcome-cases (read_page fetch_page parse_page page)) [
          | inl e ↦ stopped-IsHarvest (suc n) page by_id count block r (rw (in_time, e) at h)
          | inr (inl e) ↦ let miss : none ≡ some r = rw (in_time, e) at h in absurd (cc)
          | inr (inr ([], e)) ↦ empty-IsHarvest n page by_id count r e (
              let done : some (finish by_id (count + 1) none false) ≡ some r =
                rw (in_time, e) at h in
              cc)
          | inr (inr (s ∷ ss, e)) ↦
              page-IsHarvest n page by_id count (s ∷ ss) r e
                (elim (Bool-cases (leb max_pages page)) [
                  | inl full ↦
                      stopped-IsHarvest n (page + 1) (add_page (s ∷ ss) by_id) (count + 1) pages r
                        (rw (in_time, e, full) at h)
                  | inr more ↦
                      harvest_from-IsHarvest n (page + 1) (add_page (s ∷ ss) by_id) (count + 1) r
                        (ground arith) (omega arith) (rw (in_time, e, more) at h)
                ])
        ]
      ]

-- A harvest that returns has scraped at most `max_pages` pages (one at least is allowed), and its
-- listings are those of the first `pages_scraped` pages, the last one of each id, whatever stopped it.
-- It is partial exactly if it names a reason, and one that is not partial has met a page without
-- listings, its last.
pub harvest-IsHarvest :
    (fetch_page : ℕ → Fetched) (parse_page : String → Option (List Summary)) (clock : ℕ → ℕ)
    (max_pages runtime_minutes started : ℕ) (r : HarvestResult)
    → harvest fetch_page parse_page clock max_pages runtime_minutes started ≡ some r
    → IsHarvest fetch_page parse_page (max 1 max_pages) 1 [] 0 r
unfolding harvest
harvest-IsHarvest fetch_page parse_page clock max_pages runtime_minutes started r h =
    harvest_from-IsHarvest fetch_page parse_page clock (max 1 max_pages) runtime_minutes started
      (max 1 max_pages) 1 [] 0 r (omega arith) (omega arith) h

module _ (fetch_page : ℕ → Fetched) (parse_page : String → Option (List Summary)) (clock : ℕ → ℕ)
    (max_pages runtime_minutes started : ℕ)
    (parses : (text : String) → parse_page text ≢ none) where
  html_not_raised :
      (kind : Option String) (text : String) → read_html fetch_page parse_page kind text ≢ raised
  html_not_raised (some kind) text e = cc
  html_not_raised none text e = elim (Option-cases (parse_page text)) [
    | inl absent ↦ parses text absent
    | inr (ss, there) ↦ let kept : parsed ss ≡ raised = rw there at e in cc
  ]

  fetched_not_raised : (f : Fetched) → read_fetched fetch_page parse_page f ≢ raised
  fetched_not_raised (html text) e = html_not_raised (detect_athome_challenge text) text e
  fetched_not_raised blocked e = cc
  fetched_not_raised failed e = cc

  not_raised : (page : ℕ) → read_page fetch_page parse_page page ≢ raised
  unfolding read_page
  not_raised page = fetched_not_raised (fetch_page page)

  harvest_from_returns :
      (n page : ℕ) (by_id : Dict Summary) (count : ℕ)
      → (r : HarvestResult) × (harvest_from fetch_page parse_page clock max_pages runtime_minutes
            started n page by_id count
          ≡ some r)
  unfolding harvest_from
  harvest_from_returns zero page by_id count = (finish by_id count none false, refl)
  harvest_from_returns (suc n) page by_id count =
      elim (Bool-cases (runtime_exceeded runtime_minutes started (clock page))) [
        | inl late ↦ (finish by_id count (some runtime) true, rw late refl)
        | inr in_time ↦ elim (PageOutcome-cases (read_page fetch_page parse_page page)) [
          | inl e ↦ (finish by_id count (some block) true, rw (in_time, e) refl)
          | inr (inl e) ↦ absurd (not_raised page e)
          | inr (inr ([], e)) ↦ (finish by_id (count + 1) none false, rw (in_time, e) refl)
          | inr (inr (s ∷ ss, e)) ↦ elim (Bool-cases (leb max_pages page)) [
            | inl full ↦ (
              finish (add_page (s ∷ ss) by_id) (count + 1) (some pages) true,
              rw (in_time, e, full) refl,
            )
            | inr more ↦
                let (r, h) =
                  harvest_from_returns n (page + 1) (add_page (s ∷ ss) by_id) (count + 1) in
                (r, rw (in_time, e, more) h)
          ]
        ]
      ]

-- Where the parser never raises, the harvest returns, whatever the fetches and the clock do, and the
-- result is as stated of each harvest that returns.
pub harvest_returns :
    (fetch_page : ℕ → Fetched) (parse_page : String → Option (List Summary)) (clock : ℕ → ℕ)
    (max_pages runtime_minutes started : ℕ)
    → ((text : String) → parse_page text ≢ none)
    → (r : HarvestResult) × (harvest fetch_page parse_page clock max_pages runtime_minutes started
        ≡ some r)
      × IsHarvest fetch_page parse_page (max 1 max_pages) 1 [] 0 r
unfolding harvest
harvest_returns fetch_page parse_page clock max_pages runtime_minutes started parses =
    let (r, h) =
      harvest_from_returns fetch_page parse_page clock (max 1 max_pages) runtime_minutes started
        parses (max 1 max_pages) 1 [] 0 in
    (r, h, harvest-IsHarvest fetch_page parse_page clock max_pages runtime_minutes started r h)
