-- ===== src/Scraping/Http/Tries.antt =====
-- The tries of `_http_get` of scraping/http_adapter.py.
use athome_japan_agent_harne.Common.{
  ℕ, zero, suc, ◌+◌, ◌≤◌, ◌<◌, ◌≡◌, refl, false, not, ◌&&◌, String, Option, none, some, Result, ok,
  err, arith, eqb, is_some, Void, Bool-cases, Option-cases, inl, inr,
}
use athome_japan_agent_harne.Scraping.Http.{
  Response, FetchError, block_detected, transport_error, Adapter, Answer, sent, sleep, backoff,
  try_from, rebuilt, http_get,
}

module _ (answer : Answer) where
  -- One of the requests that were sent from the first count to the second had that answer.
  pub record Sent (first last : ℕ) (o : Option Response) : Type 0 where
    pub number : ℕ
    pub session_proxy : Option String
    pub request_proxy : Option String
    pub after_first : first ≤ number
    pub before_last : number < last
    pub answered : answer number session_proxy request_proxy ≡ o

  abbrev pub TriedResult : ℕ → ℕ → Result FetchError Response → Type 0
  TriedResult first last (ok response) = Sent first last (some response)
  TriedResult first last (err transport_error) = Sent first last none
  TriedResult first last (err (block_detected s)) = Void

  pub record Tried (n : ℕ) (a : Adapter) (r : Result FetchError Response) (b : Adapter)
      : Type 0 where
    pub spent : b.requests ≤ a.requests + n
    pub same_handoff : b.handoff ≡ a.handoff
    pub same_provider : b.proxy_provider ≡ a.proxy_provider
    pub outcome : TriedResult a.requests b.requests r

  abbrev pub TriedPair : ℕ → Adapter → Result FetchError Response × Adapter → Type 0
  TriedPair n a (r, b) = Tried n a r b

  pub widen :
      (first second last : ℕ) (o : Option Response)
      → first ≤ second
      → Sent second last o
      → Sent first last o
  widen first second last o h w = record {
    number = w.number;
    session_proxy = w.session_proxy;
    request_proxy = w.request_proxy;
    after_first = omega (arith, w.after_first);
    before_last = w.before_last;
    answered = w.answered;
  }

  widen_result :
      (first second last : ℕ) (r : Result FetchError Response)
      → first ≤ second
      → TriedResult second last r
      → TriedResult first last r
  widen_result first second last (ok response) h w = widen first second last (some response) h w
  widen_result first second last (err transport_error) h w = widen first second last none h w
  widen_result first second last (err (block_detected s)) h w = w

  -- A try more in front.
  Tried-later :
      (n attempt : ℕ) (a : Adapter) (o : Result FetchError Response × Adapter)
      → TriedPair n (sleep (backoff attempt) (sent a)) o
      → TriedPair (suc n) a o
  Tried-later n attempt a (r, b) w = record {
    spent = omega (arith, w.spent);
    same_handoff = w.same_handoff;
    same_provider = w.same_provider;
    outcome = widen_result a.requests (a.requests + 1) b.requests r (omega arith) w.outcome;
  }

  -- The request of this pass.
  request_now :
      (a : Adapter) (proxy_url : Option String) (o : Option Response)
      → answer a.requests a.client_proxy proxy_url ≡ o
      → Sent a.requests (a.requests + 1) o
  request_now a proxy_url o e = record {
    number = a.requests;
    session_proxy = a.client_proxy;
    request_proxy = proxy_url;
    after_first = omega arith;
    before_last = omega arith;
    answered = e;
  }

  pass_now :
      (n : ℕ) (a : Adapter) (r : Result FetchError Response)
      → TriedResult a.requests (a.requests + 1) r
      → Tried (suc n) a r (sent a)
  pass_now n a r w = record {
    spent = omega arith;
    same_handoff = refl;
    same_provider = refl;
    outcome = w;
  }

  try_from-Tried :
      (n attempt : ℕ) (proxy_url : Option String) (a : Adapter)
      → TriedPair (suc n) a (try_from answer (suc n) attempt proxy_url a)
  unfolding try_from
  try_from-Tried zero attempt proxy_url a =
      elim (Option-cases (answer a.requests a.client_proxy proxy_url)) [
        | inl e ↦ rw e (pass_now 0 a (err transport_error) (request_now a proxy_url none e))
        | inr (response, e) ↦
            rw e (pass_now 0 a (ok response) (request_now a proxy_url (some response) e))
      ]
  try_from-Tried (suc n) attempt proxy_url a =
      elim (Option-cases (answer a.requests a.client_proxy proxy_url)) [
        | inl e ↦
            let more : eqb (suc n) 0 ≡ false = ground arith in
            rw (e, more)
              (let next = sleep (backoff attempt) (sent a) in
                Tried-later (suc n) attempt a (try_from answer (suc n) (attempt + 1) proxy_url next)
                  (try_from-Tried n (attempt + 1) proxy_url next))
        | inr (response, e) ↦
            rw e (pass_now (suc n) a (ok response) (request_now a proxy_url (some response) e))
      ]

  Tried-of_session :
      (n : ℕ) (a : Adapter) (session : Option String) (o : Result FetchError Response × Adapter)
      → TriedPair n (record a { client_proxy = session }) o
      → TriedPair n a o
  Tried-of_session n a session (r, b) w = record {
    spent = w.spent;
    same_handoff = w.same_handoff;
    same_provider = w.same_provider;
    outcome = w.outcome;
  }

  -- A `_http_get` sends three requests at most.
  pub http_get-Tried :
      (proxy_url : Option String) (a : Adapter) → TriedPair 3 a (http_get answer proxy_url a)
  unfolding http_get rebuilt
  http_get-Tried none a = try_from-Tried 2 0 none a
  http_get-Tried (some proxy) a = elim (Bool-cases (not (is_some a.handoff) && a.client_owned)) [
    | inl e ↦
        let rebound : Adapter = record a { client_proxy = some proxy } in
        rw e (
          Tried-of_session 3 a (some proxy) (try_from answer 3 0 (some proxy) rebound)
            (try_from-Tried 2 0 (some proxy) rebound))
    | inr e ↦ rw e (try_from-Tried 2 0 (some proxy) a)
  ]
