-- ===== src/Scraping/Refarmer/Loop.antt =====
-- The sessions that the loop of `_fetch` of scraping/session_refarmer.py opens and closes.
use athome_japan_agent_harne.Common.{
  ℕ, zero, suc, ◌+◌, ◌≤◌, ◌≡◌, refl, String, Option, none, some, List, [], ◌∷◌, Result, ok, err,
  arith, Option-cases, inl, inr,
}
use athome_japan_agent_harne.Scraping.Http.{Handoff}
use athome_japan_agent_harne.Scraping.Refarmer.{
  RefarmError, block_detected, call_failed, farm_failed, Called, returned, blocked, failed, Built,
  Refarmer, close_adapter, close_active, called, rebind, after_rebound, refarm_from,
}

-- The numbers below, the largest first.
abbrev pub down : ℕ → List ℕ
down zero = []
down (suc n) = n ∷ down n

-- Each adapter that was built was closed once, but for the active one, which is the last and is bound to
-- the handoff that is kept.
abbrev pub Tidy : Option Built → ℕ → List ℕ → Option Handoff → Type 0
Tidy none built closed handoff = closed ≡ down built
Tidy (some a) built closed handoff =
    (built ≡ suc a.number) × (closed ≡ down a.number) × (a.bound_to ≡ handoff)

abbrev pub IsTidy : Refarmer → Type 0
IsTidy r = Tidy r.active r.built r.closed r.handoff

-- Closing what is active leaves every adapter closed.
close_adapter-closes :
    (o : Option Built) (built : ℕ) (closed : List ℕ) (handoff : Option Handoff)
    → Tidy o built closed handoff
    → close_adapter o closed ≡ down built
close_adapter-closes none built closed handoff tidy = tidy
close_adapter-closes (some a) built closed handoff (e, same, bound) = rw (e, same) refl

pub close_active-closes : (r : Refarmer) → IsTidy r → (close_active r).closed ≡ down r.built
close_active-closes r tidy = close_adapter-closes r.active r.built r.closed r.handoff tidy

module _ (call : ℕ → Built → Called) (farm : ℕ → Option Handoff) where
  abbrev pub Outcome : Refarmer → Refarmer → Result RefarmError String → Type 0
  Outcome r s (ok page) =
      (n : ℕ) × (a : Built) × (call n a ≡ returned page)
      × (s.active ≡ some a)
      × (s.calls ≡ suc n)
      × (r.calls ≤ n)
  Outcome r s (err (block_detected signature)) = s.active ≡ none
  Outcome r s (err call_failed) =
      (n : ℕ) × (a : Built) × (call n a ≡ failed)
      × (s.active ≡ some a)
      × (s.calls ≡ suc n)
      × (r.calls ≤ n)
  Outcome r s (err farm_failed) = (n : ℕ) × (farm n ≡ none) × (s.farms ≡ suc n) × (r.farms ≤ n)

  -- From a state of the loop with that many passes left.
  pub record IsLoop (n : ℕ) (first_block : String) (r : Refarmer) (o : Result RefarmError String)
      (s : Refarmer) : Type 0 where
    pub tidy : IsTidy s
    pub few_farms : s.farms ≤ r.farms + n
    pub few_calls : s.calls ≤ r.calls + n
    pub same_max : s.max_refarms ≡ r.max_refarms
    pub outcome : Outcome r s o
    pub exhausted :
        (signature : String)
        → o ≡ err (block_detected signature)
        → (s.farms ≡ r.farms + n) × (signature ≡ first_block)

  abbrev pub LoopPair : ℕ → String → Refarmer → Result RefarmError String × Refarmer → Type 0
  LoopPair n first_block r (o, s) = IsLoop n first_block r o s

  pub widen_outcome :
      (r m s : Refarmer) (o : Result RefarmError String)
      → r.calls ≤ m.calls
      → r.farms ≤ m.farms
      → Outcome m s o
      → Outcome r s o
  widen_outcome r m s (ok page) c f (n, a, e, active, last, w) =
      (n, a, e, active, last, omega arith)
  widen_outcome r m s (err (block_detected signature)) c f w = w
  widen_outcome r m s (err call_failed) c f (n, a, e, active, last, w) =
      (n, a, e, active, last, omega arith)
  widen_outcome r m s (err farm_failed) c f (n, e, last, w) = (n, e, last, omega arith)

  -- One pass of the loop before the rest.
  LoopPair-later :
      (n : ℕ) (first_block : String) (r m : Refarmer) (o : Result RefarmError String × Refarmer)
      → m.farms ≡ r.farms + 1
      → m.calls ≡ r.calls + 1
      → m.max_refarms ≡ r.max_refarms
      → LoopPair n first_block m o
      → LoopPair (suc n) first_block r o
  LoopPair-later n first_block r m (o, s) farmed called_once same w = record {
    tidy = w.tidy;
    few_farms = omega (arith, w.few_farms);
    few_calls = omega (arith, w.few_calls);
    same_max = cc (same, w.same_max);
    outcome = widen_outcome r m s o (omega arith) (omega arith) w.outcome;
    exhausted = λ signature e. let (spent, first) = w.exhausted signature e in (omega arith, first);
  }

  call_rebound-IsLoop :
      (n : ℕ) (first_block : String) (rest : Refarmer → Result RefarmError String × Refarmer)
      (r m : Refarmer) (a : Built) (c : Called)
      → call m.calls a ≡ c
      → IsTidy m
      → m.active ≡ some a
      → m.farms ≡ r.farms + 1
      → m.calls ≡ r.calls
      → m.max_refarms ≡ r.max_refarms
      → LoopPair n first_block (called m) (rest (called m))
      → LoopPair (suc n) first_block r (after_rebound call farm c rest (called m))
  call_rebound-IsLoop n first_block rest r m a (returned page) e tidy active farmed same_calls same
        w =
      record {
        tidy = tidy;
        few_farms = omega arith;
        few_calls = omega arith;
        same_max = same;
        outcome = (m.calls, a, e, active, omega arith, omega arith);
        exhausted = λ signature f. absurd (cc);
      }
  call_rebound-IsLoop n first_block rest r m a (blocked s) e tidy active farmed same_calls same w =
      LoopPair-later n first_block r (called m) (rest (called m)) farmed (omega arith) same w
  call_rebound-IsLoop n first_block rest r m a failed e tidy active farmed same_calls same w =
      record {
        tidy = tidy;
        few_farms = omega arith;
        few_calls = omega arith;
        same_max = same;
        outcome = (m.calls, a, e, active, omega arith, omega arith);
        exhausted = λ signature f. absurd (cc);
      }

  pub refarm_from-IsLoop :
      (n : ℕ) (first_block : String) (r : Refarmer)
      → IsTidy r
      → LoopPair n first_block r (refarm_from call farm n first_block r)
  unfolding refarm_from
  refarm_from-IsLoop zero first_block r tidy = record {
    tidy = close_active-closes r tidy;
    few_farms = omega arith;
    few_calls = omega arith;
    same_max = refl;
    outcome = refl;
    exhausted = λ signature e. (omega arith, cc);
  }
  refarm_from-IsLoop (suc n) first_block r tidy = elim (Option-cases (farm r.farms)) [
    | inl e ↦ rw e (record {
      tidy = tidy;
      few_farms = omega arith;
      few_calls = omega arith;
      same_max = refl;
      outcome = (r.farms, e, omega arith, omega arith);
      exhausted = λ signature f. absurd (cc);
    })
    | inr (handoff, e) ↦ rw e (
        let (rebound, m) : Built × Refarmer = rebind handoff (record r { farms = r.farms + 1 }) in
        let tidy_now : IsTidy (called m) = (refl, close_active-closes r tidy, refl) in
        call_rebound-IsLoop n first_block (refarm_from call farm n first_block) r m rebound
          (call m.calls rebound) refl tidy_now refl refl refl refl
          (refarm_from-IsLoop n first_block (called m) tidy_now))
  ]
