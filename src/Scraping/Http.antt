-- ===== src/Scraping/Http.antt =====
-- scraping/http_adapter.py. The answer to each request is an argument: given the number of requests sent
-- before, the proxy of the session and the proxy of the request, a response, or nothing where curl
-- raises a transport error. Waits are in milliseconds. The captured response of debug mode is left out.
pub mod Tries
pub mod Fetch
mod Tests
use athome_japan_agent_harne.Common.{
  ℕ, zero, suc, ◌+◌, ◌*◌, ◌^◌, min, String, Bool, true, false, ◌&&◌, ◌||◌, not, Option, none, some,
  List, [], ◌∷◌, ◌++◌, Result, ok, err, eqb, any, is_some, if◌then◌else◌,
}
use athome_japan_agent_harne.Common.Texts.{codes_of, lower, occurs_in}
use athome_japan_agent_harne.Scraping.Challenge.{detect_athome_challenge}
use athome_japan_agent_harne.Scraping.Proxy.{Provider, report_block}

pub record Response : Type 0 where
  pub status_code : ℕ
  pub text : String
  pub content : String

-- The exceptions of a fetch: `BlockDetected` with its signature, and curl's `RequestsError`.
pub data FetchError : Type 0 where
  block_detected : String → FetchError
  transport_error : FetchError

-- A `CookieHandoff`, of which the adapter's control flow reads the proxy.
pub record Handoff : Type 0 where
  pub proxy_url : Option String

pub record Adapter : Type 0 where
  pub proxy_retries : ℕ
  pub proxy_provider : Option Provider
  pub handoff : Option Handoff
  pub client_owned : Bool
  pub client_proxy : Option String
  pub requests : ℕ
  pub slept : List ℕ

abbrev pub Answer : Type 0
Answer = ℕ → Option String → Option String → Option Response

abbrev captcha_markers : List String
captcha_markers = "recaptcha" ∷ "captcha" ∷ "verify you are human" ∷ []

unfoldable pub detect_signature : ℕ → String → Option String
detect_signature status_code body =
    let lowered = lower (codes_of body) in
    if is_some (detect_athome_challenge body)
      || any (λ (m : String). occurs_in (codes_of m) lowered) captcha_markers
    then some "captcha"
    else if eqb status_code 403
    then some "403"
    else if eqb status_code 429
    then some "429"
    else none

abbrev pub handoff_proxy : Option Handoff → Option String
handoff_proxy none = none
handoff_proxy (some h) = h.proxy_url

-- `__init__`, given whether the caller leaves the session to the adapter
unfoldable pub new_adapter : ℕ → Option Provider → Option Handoff → Bool → Adapter
new_adapter proxy_retries provider handoff owned = record {
  proxy_retries = proxy_retries;
  proxy_provider = if is_some handoff then none else provider;
  handoff = handoff;
  client_owned = owned;
  client_proxy = handoff_proxy handoff;
  requests = 0;
  slept = [];
}

abbrev transient_retries : ℕ
transient_retries = 3

-- `min(_BACKOFF_MAX_S, _BACKOFF_BASE_S * (2**attempt))`
abbrev pub backoff : ℕ → ℕ
backoff attempt = min 8000 (500 * 2 ^ attempt)

abbrev pub sent : Adapter → Adapter
sent a = record a { requests = a.requests + 1 }

abbrev pub sleep : ℕ → Adapter → Adapter
sleep wait a = record a { slept = a.slept ++ wait ∷ [] }

-- A new session for the proxy, unless the session is the handoff's or the caller's.
unfoldable pub rebuilt : Option String → Adapter → Adapter
rebuilt none a = a
rebuilt (some proxy) a =
    if not (is_some a.handoff) && a.client_owned then record a { client_proxy = some proxy } else a

abbrev pub Again : Type 0
Again = Option String → Adapter → Result FetchError String × Adapter

-- From the answer of `report_block`: through the next proxy, or up.
abbrev pub rotate :
    Again → String → Option String × Provider → Adapter → Result FetchError String × Adapter
rotate again signature (none, p) a =
    (err (block_detected signature), record a { proxy_provider = some p })
rotate again signature (some proxy, p) a = again (some proxy) (record a { proxy_provider = some p })

abbrev pub when_blocked :
    Again → String → Option Handoff → Option Provider → Adapter → Result FetchError String × Adapter
when_blocked again signature (some h) provider a = (err (block_detected signature), a)
when_blocked again signature none none a = (err (block_detected signature), a)
when_blocked again signature none (some p) a = rotate again signature (report_block p) a

abbrev pub judge : Again → Option String → String → Adapter → Result FetchError String × Adapter
judge again none content a = (ok content, a)
judge again (some signature) content a = when_blocked again signature a.handoff a.proxy_provider a

abbrev pub after_get :
    Again → Result FetchError Response × Adapter → Result FetchError String × Adapter
after_get again (err e, a) = (err e, a)
after_get again (ok response, a) =
    judge again (detect_signature response.status_code response.text) response.content a

module _ (answer : Answer) where
  -- The body of the loop of `_http_get`, given whether this is the last attempt and the rest.
  abbrev pub after_try :
      Bool
      → Option Response
      → (Adapter → Result FetchError Response × Adapter)
      → ℕ
      → Adapter
      → Result FetchError Response × Adapter
  after_try last (some response) rest attempt a = (ok response, a)
  after_try true none rest attempt a = (err transport_error, a)
  after_try false none rest attempt a = rest (sleep (backoff attempt) a)

  -- `for attempt in range(_TRANSIENT_RETRIES)`, with the attempts left
  unfoldable pub try_from : ℕ → ℕ → Option String → Adapter → Result FetchError Response × Adapter
  try_from zero attempt proxy_url a = (err transport_error, a)
  try_from (suc n) attempt proxy_url a =
      after_try (eqb n 0) (answer a.requests a.client_proxy proxy_url)
        (try_from n (attempt + 1) proxy_url) attempt (sent a)

  unfoldable pub http_get : Option String → Adapter → Result FetchError Response × Adapter
  unfolding try_from rebuilt
  http_get proxy_url a = try_from transient_retries 0 proxy_url (rebuilt proxy_url a)

  -- The loop of `_request_bytes`, with the passes left.
  unfoldable pub request_from : ℕ → Option String → Adapter → Result FetchError String × Adapter
  unfolding http_get
  request_from zero proxy_url a = (err (block_detected "429"), a)
  request_from (suc n) proxy_url a = after_get (request_from n) (http_get proxy_url a)

-- `attempts`
unfoldable pub attempts_of : Adapter → ℕ
attempts_of a =
    if is_some a.handoff then 0 else if is_some a.proxy_provider then a.proxy_retries else 0

-- `_request_bytes`
unfoldable pub request_bytes : Answer → Adapter → Result FetchError String × Adapter
unfolding request_from attempts_of
request_bytes answer a = request_from answer (suc (attempts_of a)) (handoff_proxy a.handoff) a
