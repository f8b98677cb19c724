-- ===== src/Scraping/Http/Fetch.antt =====
-- What a fetch of scraping/http_adapter.py costs, and what its outcome says of the responses.
use athome_japan_agent_harne.Common.{
  ℕ, zero, suc, ◌+◌, ◌*◌, ◌≤◌, ◌≡◌, refl, false, String, Option, none, some, Result, ok, err, arith,
  leb, eqb, length, ap, ◌||◌, Bool-cases, inl, inr,
}
use athome_japan_agent_harne.Scraping.Proxy.{Provider, candidate, report_block}
use athome_japan_agent_harne.Scraping.Http.{
  Response, FetchError, block_detected, transport_error, Handoff, Adapter, Answer, detect_signature,
  http_get, Again, rotate, when_blocked, judge, after_get, request_from, attempts_of, request_bytes,
  handoff_proxy,
}
use athome_japan_agent_harne.Scraping.Http.Tries.{Sent, TriedPair, widen, http_get-Tried}

module _ (answer : Answer) where
  -- What the outcome of a fetch says of the responses to its requests.
  abbrev pub Explained : ℕ → ℕ → Result FetchError String → Type 0
  Explained first last (ok content) =
      (response : Response) × Sent answer first last (some response)
      × (detect_signature response.status_code response.text ≡ none)
      × (content ≡ response.content)
  Explained first last (err (block_detected signature)) =
      (response : Response) × Sent answer first last (some response)
      × (detect_signature response.status_code response.text ≡ some signature)
  Explained first last (err transport_error) = Sent answer first last none

  widen_outcome :
      (first second last : ℕ) (r : Result FetchError String)
      → first ≤ second
      → Explained second last r
      → Explained first last r
  widen_outcome first second last (ok content) h (response, w, e, same) =
      (response, widen answer first second last (some response) h w, e, same)
  widen_outcome first second last (err (block_detected s)) h (response, w, e) =
      (response, widen answer first second last (some response) h w, e)
  widen_outcome first second last (err transport_error) h w =
      widen answer first second last none h w

  pub record IsFetch (n : ℕ) (a : Adapter) (r : Result FetchError String) (b : Adapter)
      : Type 0 where
    pub spent : b.requests ≤ a.requests + n
    pub explained : Explained a.requests b.requests r

  abbrev pub FetchPair : ℕ → Adapter → Result FetchError String × Adapter → Type 0
  FetchPair n a (r, b) = IsFetch n a r b

  -- The provider gives out no more proxies than there are passes left.
  abbrev pub Within : ℕ → Option Provider → Type 0
  Within n none = Unit
  Within n (some p) = p.proxy_retries ≤ p.retries_used + n

  -- One pass of the loop before the rest.
  FetchPair-later :
      (n : ℕ) (a : Adapter) (b : Adapter) (o : Result FetchError String × Adapter)
      → a.requests ≤ b.requests
      → b.requests ≤ a.requests + 3
      → FetchPair (n * 3) b o
      → FetchPair (suc n * 3) a o
  FetchPair-later n a b (r, c) started spent w = record {
    spent = omega (arith, w.spent, spent);
    explained = widen_outcome a.requests b.requests c.requests r started w.explained;
  }

  -- The rest of the loop does what it should after a rotation of the provider.
  abbrev Rotating : ℕ → Again → Provider → Type 0
  Rotating n again p =
      (proxy : String) (q : Provider) (b : Adapter)
      → report_block p ≡ (some proxy, q)
      → FetchPair (n * 3) (record b { proxy_provider = some q })
          (again (some proxy) (record b { proxy_provider = some q }))

  module _ (n : ℕ) (again : Again) (a b : Adapter) (w : a.requests ≤ b.requests)
      (spent : b.requests ≤ a.requests + 3) where
    rotate-IsFetch :
        (signature : String) (p : Provider) (o : Option String × Provider)
        → report_block p ≡ o
        → Rotating n again p
        → Explained a.requests b.requests (err (block_detected signature))
        → FetchPair (suc n * 3) a (rotate again signature o b)
    rotate-IsFetch signature p (none, q) e rotating why = record {
      spent = omega (arith, spent);
      explained = why;
    }
    rotate-IsFetch signature p (some proxy, q) e rotating why =
        let rotated : Adapter = record b { proxy_provider = some q } in
        FetchPair-later n a rotated (again (some proxy) rotated) w spent (rotating proxy q b e)

    when_blocked-IsFetch :
        (signature : String) (handoff : Option Handoff) (provider : Option Provider)
        → ((p : Provider) → provider ≡ some p → Rotating n again p)
        → Explained a.requests b.requests (err (block_detected signature))
        → FetchPair (suc n * 3) a (when_blocked again signature handoff provider b)
    when_blocked-IsFetch signature (some h) provider rotating why = record {
      spent = omega (arith, spent);
      explained = why;
    }
    when_blocked-IsFetch signature none none rotating why = record {
      spent = omega (arith, spent);
      explained = why;
    }
    when_blocked-IsFetch signature none (some p) rotating why =
        rotate-IsFetch signature p (report_block p) refl (rotating p refl) why

    judge-IsFetch :
        (response : Response) (signature : Option String)
        → detect_signature response.status_code response.text ≡ signature
        → Sent answer a.requests b.requests (some response)
        → ((p : Provider) → b.proxy_provider ≡ some p → Rotating n again p)
        → FetchPair (suc n * 3) a (judge again signature response.content b)
    judge-IsFetch response none e seen rotating = record {
      spent = omega (arith, spent);
      explained = (response, seen, e, refl);
    }
    judge-IsFetch response (some signature) e seen rotating =
        when_blocked-IsFetch signature b.handoff b.proxy_provider rotating (response, seen, e)

  after_get-IsFetch :
      (n : ℕ) (again : Again) (a : Adapter) (o : Result FetchError Response × Adapter)
      → TriedPair answer 3 a o
      → ((p : Provider) → a.proxy_provider ≡ some p → Rotating n again p)
      → FetchPair (suc n * 3) a (after_get again o)
  after_get-IsFetch n again a (ok response, b) w rotating =
      judge-IsFetch n again a b (omega (arith, w.outcome.after_first, w.outcome.before_last))
        w.spent response (detect_signature response.status_code response.text) refl w.outcome
        (λ p e. rotating p (cc (e, w.same_provider)))
  after_get-IsFetch n again a (err transport_error, b) w rotating = record {
    spent = omega (arith, w.spent);
    explained = w.outcome;
  }
  after_get-IsFetch n again a (err (block_detected s), b) w rotating = elim w.outcome [ ]

  spend_one :
      (retries used n : ℕ)
      → leb retries used ≡ false
      → retries ≤ used + n
      → (m : ℕ) × (n ≡ suc m) × (retries ≤ used + 1 + m)
  spend_one retries used zero left within = absurd (ground arith)
  spend_one retries used (suc m) left within = (m, refl, omega arith)

  budget_fits :
      (n : ℕ) (o : Option Provider)
      → ((p : Provider) → o ≡ some p → p.proxy_retries ≤ n + p.retries_used)
      → Within n o
  budget_fits n none h = tt
  budget_fits n (some p) h = omega (arith, h p refl)

  -- A rotation uses one of the provider's retries up.
  rotation-spends :
      (n : ℕ) (p q : Provider) (proxy : String)
      → report_block p ≡ (some proxy, q)
      → p.proxy_retries ≤ p.retries_used + n
      → (m : ℕ) × (n ≡ suc m) × (q.proxy_retries ≤ q.retries_used + m)
  unfolding report_block
  rotation-spends n p q proxy h within =
      elim (Bool-cases (leb p.proxy_retries p.retries_used || eqb (length p.pool) 0)) [
        | inl e ↦
            let hit : Path (Option String × Provider) (none, p) (some proxy, q) = rw e at h in
            let off : none ≡ some proxy = ap (λ (x : Option String × Provider). x.0) hit in
            absurd (cc)
        | inr e ↦
            let hit : Path (Option String × Provider)
                (
                  candidate p.pool (p.retries_used + 1),
                  record p { retries_used = p.retries_used + 1 },
                )
                (some proxy, q) =
              rw e at h in
            let same : record p { retries_used = p.retries_used + 1 } ≡ q =
              ap (λ (x : Option String × Provider). x.1) hit in
            let left : leb p.proxy_retries p.retries_used ≡ false = ground arith in
            rw (← same) (spend_one p.proxy_retries p.retries_used n left within)
      ]

  request_from-IsFetch :
      (n : ℕ) (proxy_url : Option String) (a : Adapter)
      → Within n a.proxy_provider
      → FetchPair (suc n * 3) a (request_from answer (suc n) proxy_url a)
  unfolding request_from
  request_from-IsFetch zero proxy_url a within =
      after_get-IsFetch zero (request_from answer zero) a (http_get answer proxy_url a)
        (http_get-Tried answer proxy_url a)
        (λ p e proxy q b h.
          let (m, z, left) = rotation-spends 0 p q proxy h (rw e at within) in absurd (omega arith))
  request_from-IsFetch (suc n) proxy_url a within =
      after_get-IsFetch (suc n) (request_from answer (suc n)) a (http_get answer proxy_url a)
        (http_get-Tried answer proxy_url a)
        (λ p e proxy q b h.
          let (m, z, left) = rotation-spends (suc n) p q proxy h (rw e at within) in
          let same : n ≡ m = omega arith in
          request_from-IsFetch n (some proxy) (record b { proxy_provider = some q }) (rw same left))

-- A fetch sends three requests at most for the direct connection or the handoff, and three for each
-- proxy of its budget. A content that it returns is that of a response to one of these requests in which
-- no signature of a block was found; where it raises a block, one of the responses had that signature;
-- and where it raises a transport error, a request had no response. The provider's budget of proxies is
-- at most the adapter's.
pub request_bytes-IsFetch :
    (answer : Answer) (a : Adapter)
    → ((p : Provider)
        → a.proxy_provider ≡ some p
        → p.proxy_retries ≤ attempts_of a + p.retries_used)
    → FetchPair answer (suc (attempts_of a) * 3) a (request_bytes answer a)
unfolding request_bytes
request_bytes-IsFetch answer a within =
    request_from-IsFetch answer (attempts_of a) (handoff_proxy a.handoff) a
      (budget_fits answer (attempts_of a) a.proxy_provider within)
