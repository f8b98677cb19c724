-- ===== src/Scraping/Http/Tests.antt =====
-- Runs of scraping/http_adapter.py: a direct request that is refused, and one that succeeds by a proxy.
use athome_japan_agent_harne.Common.{
  ℕ, suc, ◌+◌, ◌*◌, ◌≤◌, ◌≡◌, refl, none, some, String, [], ◌∷◌, true, ok, arith, zero,
}
use athome_japan_agent_harne.Scraping.Proxy.{Provider, report_block}
use athome_japan_agent_harne.Scraping.Http.{
  Response, Adapter, Answer, new_adapter, attempts_of, detect_signature, request_bytes,
  request_from, http_get, try_from, rebuilt,
}
use athome_japan_agent_harne.Scraping.Challenge.{detect_athome_challenge}
use athome_japan_agent_harne.Scraping.Http.Fetch.{FetchPair, request_bytes-IsFetch}

abbrev page : ℕ → String → Response
page status body = record { status_code = status; text = body; content = body }

abbrev refused_once : Answer
refused_once zero session proxy = some (page 403 "no")
refused_once (suc zero) session proxy = none
refused_once (suc (suc n)) session proxy = some (page 200 "<html>")

abbrev provider : Provider
provider = record { pool = "p" ∷ []; proxy_retries = 1; retries_used = 0 }

abbrev adapter : Adapter
adapter = record {
  proxy_retries = 1;
  proxy_provider = some provider;
  handoff = none;
  client_owned = true;
  client_proxy = none;
  requests = 0;
  slept = [];
}

adapter_is_new : new_adapter 1 (some provider) none true ≡ adapter
unfolding new_adapter
adapter_is_new = refl

-- The second request meets a transport error and is sent again after half a second.
recovers : request_bytes refused_once adapter ≡ (
  ok "<html>",
  record adapter {
    proxy_provider = some (record provider { retries_used = 1 });
    client_proxy = some "p";
    requests = 3;
    slept = 500 ∷ [];
  },
)
unfolding request_bytes request_from http_get try_from rebuilt attempts_of detect_signature
    detect_athome_challenge report_block
recovers = refl

within_adapter :
    (p : Provider) → some provider ≡ some p → p.proxy_retries ≤ attempts_of adapter + p.retries_used
unfolding attempts_of
within_adapter p e = let same : provider ≡ p = cc in rw (← same) (omega arith)

request_bytes-IsFetch_example :
    FetchPair refused_once
      (suc (attempts_of adapter) * 3)
      adapter
      (request_bytes refused_once adapter)
request_bytes-IsFetch_example = request_bytes-IsFetch refused_once adapter within_adapter
