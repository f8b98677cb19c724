-- ===== src/Scraping/Refarmer.antt =====
-- scraping/session_refarmer.py with debug off. An adapter is the number under which it was built and the
-- handoff it is bound to. What a call of an adapter does, and what a farming of a session does, are
-- arguments, given how many calls and farmings there were before.
pub mod Loop
pub mod Sessions
mod Tests
use athome_japan_agent_harne.Common.{
  ℕ, zero, suc, ◌+◌, String, Bool, Option, none, some, List, [], ◌∷◌, Result, ok, err,
}
use athome_japan_agent_harne.Scraping.Http.{Handoff}

-- The exceptions: `BlockDetected` with its signature, any other of an adapter, and any of the farmer.
pub data RefarmError : Type 0 where
  block_detected : String → RefarmError
  call_failed : RefarmError
  farm_failed : RefarmError

-- What a call of an adapter does: return a page, raise `BlockDetected`, or raise anything else.
pub data Called : Type 0 where
  returned : String → Called
  blocked : String → Called
  failed : Called

pub record Built : Type 0 where
  pub number : ℕ
  pub bound_to : Option Handoff

pub record Refarmer : Type 0 where
  pub max_refarms : ℕ
  pub active : Option Built
  pub handoff : Option Handoff
  pub built : ℕ
  pub closed : List ℕ
  pub calls : ℕ
  pub farms : ℕ

-- `__init__`; a negative bound is refused there
abbrev pub new_refarmer : ℕ → Refarmer
new_refarmer max_refarms = record {
  max_refarms = max_refarms;
  active = none;
  handoff = none;
  built = 0;
  closed = [];
  calls = 0;
  farms = 0;
}

-- `_close_adapter`: what has been closed then
abbrev pub close_adapter : Option Built → List ℕ → List ℕ
close_adapter none closed = closed
close_adapter (some a) closed = a.number ∷ closed

abbrev pub close_active : Refarmer → Refarmer
close_active r = record r { closed = close_adapter r.active r.closed }

unfoldable pub close : Refarmer → Refarmer
close r = record (close_active r) { active = none; handoff = none }

-- `_build_adapter` makes the active adapter.
abbrev pub build : Option Handoff → Refarmer → Built × Refarmer
build bound_to r =
    let a : Built = record { number = r.built; bound_to = bound_to } in
    (a, record r { built = suc r.built })

abbrev pub called : Refarmer → Refarmer
called r = record r { calls = r.calls + 1 }

-- `self._active = rebound`, `self._handoff = handoff`, after the adapter in use is closed
unfoldable pub rebind : Handoff → Refarmer → Built × Refarmer
rebind handoff r =
    let (rebound, s) = build (some handoff) r in
    (rebound, record (close_active s) { active = some rebound; handoff = some handoff })

module _ (call : ℕ → Built → Called) (farm : ℕ → Option Handoff) where
  abbrev pub after_rebound :
      Called
      → (Refarmer → Result RefarmError String × Refarmer)
      → Refarmer
      → Result RefarmError String × Refarmer
  after_rebound (returned page) rest r = (ok page, r)
  after_rebound (blocked signature) rest r = rest r
  after_rebound failed rest r = (err call_failed, r)

  abbrev pub call_rebound :
      (Refarmer → Result RefarmError String × Refarmer)
      → Built × Refarmer
      → Result RefarmError String × Refarmer
  call_rebound rest (rebound, r) = after_rebound (call r.calls rebound) rest (called r)

  abbrev pub after_farm :
      (Refarmer → Result RefarmError String × Refarmer)
      → Option Handoff
      → Refarmer
      → Result RefarmError String × Refarmer
  after_farm rest none r = (err farm_failed, r)
  after_farm rest (some handoff) r = call_rebound rest (rebind handoff r)

  -- The loop over `range(self._max_refarms)` and what follows it, with the passes left.
  unfoldable pub refarm_from : ℕ → String → Refarmer → Result RefarmError String × Refarmer
  unfolding rebind
  refarm_from zero first_block r =
      (err (block_detected first_block), record (close_active r) { active = none })
  refarm_from (suc n) first_block r =
      after_farm (refarm_from n first_block) (farm r.farms) (record r { farms = r.farms + 1 })

  abbrev pub after_first : Called → Refarmer → Result RefarmError String × Refarmer
  after_first (returned page) r = (ok page, r)
  after_first (blocked first_block) r = refarm_from r.max_refarms first_block r
  after_first failed r = (err call_failed, close r)

  abbrev pub call_first : Built × Refarmer → Result RefarmError String × Refarmer
  call_first (a, r) = after_first (call r.calls a) (called r)

  -- `if self._active is None`
  abbrev pub activated : Option Built → Refarmer → Built × Refarmer
  activated (some a) r = (a, r)
  activated none r = let (a, s) = build r.handoff r in (a, record s { active = some a })

  -- `_fetch`
  unfoldable pub fetch : Refarmer → Result RefarmError String × Refarmer
  unfolding refarm_from close
  fetch r = call_first (activated r.active r)

-- What an owner does with a refarmer.
pub data Use : Type 0 where
  fetch_page : Use
  close_session : Use

unfoldable pub run_uses :
    (ℕ → Built → Called) → (ℕ → Option Handoff) → List Use → Refarmer → Refarmer
unfolding fetch close
run_uses call farm [] r = r
run_uses call farm (fetch_page ∷ uses) r = run_uses call farm uses (fetch call farm r).1
run_uses call farm (close_session ∷ uses) r = run_uses call farm uses (close r)
