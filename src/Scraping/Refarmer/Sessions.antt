-- ===== src/Scraping/Refarmer/Sessions.antt =====
-- The sessions that scraping/session_refarmer.py opens and closes, and what its fetch comes to.
use athome_japan_agent_harne.Common.{
  ℕ, suc, ◌+◌, ◌≤◌, ◌≡◌, refl, ◌⊎◌, inl, inr, String, Option, none, some, List, [], ◌∷◌, Result,
  err, arith,
}
use athome_japan_agent_harne.Scraping.Http.{Handoff}
use athome_japan_agent_harne.Scraping.Refarmer.{
  RefarmError, block_detected, call_failed, Called, returned, blocked, failed, Built, Refarmer,
  close, called, refarm_from, after_first, call_first, activated, fetch, Use, fetch_page,
  close_session, run_uses,
}
use athome_japan_agent_harne.Scraping.Refarmer.Loop.{
  Tidy, IsTidy, close_active-closes, Outcome, widen_outcome, refarm_from-IsLoop,
}

module _ (call : ℕ → Built → Called) (farm : ℕ → Option Handoff) where
  -- The adapter of the first call: the active one, or the one that is built then.
  abbrev pub first_adapter : Refarmer → Built
  first_adapter r = (activated call farm r.active r).0

  -- What a fetch returns or raises: an outcome of the loop, or what the first call did.
  abbrev pub Ends : Refarmer → Refarmer → Result RefarmError String → Type 0
  Ends r s o =
      Outcome call farm r s o
      ⊎ ((o ≡ err call_failed)
          × (call r.calls (first_adapter r) ≡ failed)
          × (s.active ≡ none)
          × (s.calls ≡ suc r.calls))

  -- What a fetch comes to.
  pub record IsFetch (r : Refarmer) (o : Result RefarmError String) (s : Refarmer) : Type 0 where
    pub tidy : IsTidy s
    pub few_farms : s.farms ≤ r.farms + r.max_refarms
    pub few_calls : s.calls ≤ r.calls + r.max_refarms + 1
    pub same_max : s.max_refarms ≡ r.max_refarms
    pub outcome : Ends r s o
    pub exhausted :
        (signature : String)
        → o ≡ err (block_detected signature)
        → (s.farms ≡ r.farms + r.max_refarms) × (call r.calls (first_adapter r) ≡ blocked signature)

  abbrev pub FetchPair : Refarmer → Result RefarmError String × Refarmer → Type 0
  FetchPair r (o, s) = IsFetch r o s

  after_first-IsFetch :
      (r : Refarmer) (a : Built) (c : Called)
      → call r.calls a ≡ c
      → r.active ≡ some a
      → call r.calls (first_adapter r) ≡ c
      → IsTidy r
      → FetchPair r (after_first call farm c (called r))
  unfolding close
  after_first-IsFetch r a (returned page) e active first_called tidy = record {
    tidy = tidy;
    few_farms = omega arith;
    few_calls = omega arith;
    same_max = refl;
    outcome = inl (r.calls, a, e, active, omega arith, omega arith);
    exhausted = λ signature f. absurd (cc);
  }
  after_first-IsFetch r a (blocked first_block) e active first_called tidy =
      let w = refarm_from-IsLoop call farm r.max_refarms first_block (called r) tidy in
      record {
        tidy = w.tidy;
        few_farms = w.few_farms;
        few_calls = omega (arith, w.few_calls);
        same_max = w.same_max;
        outcome = inl (
            widen_outcome call farm r (called r)
              (refarm_from call farm r.max_refarms first_block (called r)).1
              (refarm_from call farm r.max_refarms first_block (called r)).0 (omega arith)
              (omega arith) w.outcome);
        exhausted = λ signature f.
            let (spent, first) = w.exhausted signature f in (spent, cc (first_called, first));
      }
  after_first-IsFetch r a failed e active first_called tidy = record {
    tidy = close_active-closes r tidy;
    few_farms = omega arith;
    few_calls = omega arith;
    same_max = refl;
    outcome = inr (refl, first_called, refl, omega arith);
    exhausted = λ signature f. absurd (cc);
  }

  -- The adapter is built before the call.
  Ends-of_built :
      (r m s : Refarmer) (o : Result RefarmError String)
      → m.calls ≡ r.calls
      → m.farms ≡ r.farms
      → first_adapter r ≡ first_adapter m
      → Ends m s o
      → Ends r s o
  Ends-of_built r m s o calls farms same_first (inl w) =
      inl (widen_outcome call farm r m s o (omega arith) (omega arith) w)
  Ends-of_built r m s o calls farms same_first (inr (e, first_called, idle, last)) =
      inr (e, rw (same_first, ← calls) first_called, idle, omega arith)

  FetchPair-of_built :
      (r : Refarmer) (active : Option Built) (built : ℕ) (o : Result RefarmError String × Refarmer)
      → first_adapter r ≡ first_adapter (record r { active = active; built = built })
      → FetchPair (record r { active = active; built = built }) o
      → FetchPair r o
  FetchPair-of_built r active built (o, s) same_first w = record {
    tidy = w.tidy;
    few_farms = w.few_farms;
    few_calls = w.few_calls;
    same_max = w.same_max;
    outcome =
        Ends-of_built r (record r { active = active; built = built }) s o refl refl same_first
          w.outcome;
    exhausted =
        λ signature f. let (spent, first) = w.exhausted signature f in (spent, rw same_first first);
  }

  call_first-IsFetch :
      (o : Option Built) (r : Refarmer)
      → r.active ≡ o
      → IsTidy r
      → FetchPair r (call_first call farm (activated call farm o r))
  call_first-IsFetch none r active tidy =
      let a : Built = record { number = r.built; bound_to = r.handoff } in
      let m : Refarmer = record r { active = some a; built = suc r.built } in
      let closed : Tidy none r.built r.closed r.handoff = rw active at tidy in
      FetchPair-of_built r (some a) (suc r.built)
        (after_first call farm (call m.calls a) (called m)) (rw active refl)
        (after_first-IsFetch m a (call m.calls a) refl refl refl (refl, closed, refl))
  call_first-IsFetch (some a) r active tidy =
      after_first-IsFetch r a (call r.calls a) refl active (rw active refl) tidy

-- A fetch leaves every adapter closed but for the active one, calls adapters once and once more for each
-- session it may farm, and farms no more sessions than its bound. A page that it returns is what the last
-- call returned, and its adapter stays active; another error was raised by the last call, or by the last
-- farming, that this fetch made, and a call's adapter stays active unless the call was the first. It raises a
-- block only when it has farmed as often as it may; the block is that of the first call, of the adapter that
-- was active or was built for it, and no adapter is active then.
pub fetch-IsFetch :
    (call : ℕ → Built → Called) (farm : ℕ → Option Handoff) (r : Refarmer)
    → IsTidy r
    → FetchPair call farm r (fetch call farm r)
unfolding fetch
fetch-IsFetch call farm r tidy = call_first-IsFetch call farm r.active r refl tidy

-- However often it fetches and is closed, a new refarmer has closed every adapter it built, and each only
-- once, but for the active one, which is the last and is bound to the handoff it keeps.
pub run_uses-IsTidy :
    (call : ℕ → Built → Called) (farm : ℕ → Option Handoff) (uses : List Use) (r : Refarmer)
    → IsTidy r
    → IsTidy (run_uses call farm uses r)
unfolding run_uses close
run_uses-IsTidy call farm [] r tidy = tidy
run_uses-IsTidy call farm (fetch_page ∷ uses) r tidy =
    run_uses-IsTidy call farm uses (fetch call farm r).1 (fetch-IsFetch call farm r tidy).tidy
run_uses-IsTidy call farm (close_session ∷ uses) r tidy =
    run_uses-IsTidy call farm uses (close r) (close_active-closes r tidy)
