-- ===== src/Llm/Transport/Replies.antt =====
-- What one call of `complete_text` of llm/openai_compat.py costs, and where its answer comes from.
use athome_japan_agent_harne.Common.{
  ℕ, suc, ◌+◌, ◌≤◌, ◌<◌, ◌≡◌, ◌⊎◌, inl, inr, refl, String, true, ◌&&◌, Option, none, some, arith,
  leb, ltb, Result, ok, err, Bool-cases, Option-cases,
}
use athome_japan_agent_harne.Llm.Completion.{LlmUsage}
use athome_japan_agent_harne.Llm.Transport.{
  Reply, TransportError, transport_error, Wire, posted, waited, server_error, Posted,
  returned_status, post_from, read_reply, after_posts, complete_text,
}

module _ (post : ℕ → Option Reply) where
  -- Where the loop ends: a transport error, or the last response.
  abbrev pub Ends : Wire → Wire → Result TransportError Reply → Type 0
  Ends w v (ok r) = (n : ℕ) × (post n ≡ some r) × (w.posts ≤ n) × (v.posts ≡ suc n)
  Ends w v (err e) = e ≡ transport_error

  -- A post that is made again after it.
  abbrev pub IsFailure : Option Reply → Type 0
  IsFailure none = Unit
  IsFailure (some r) = server_error r.status_code ≡ true

  pub record IsLoop (w : Wire) (o : Result TransportError Reply) (v : Wire) : Type 0 where
    pub once : w.posts + 1 ≤ v.posts
    pub few : v.posts ≤ w.posts + 2
    pub ends : Ends w v o
    pub retried : v.posts ≡ w.posts + 2 → IsFailure (post w.posts)

  abbrev LoopPair : Wire → Posted → Type 0
  LoopPair w (o, v) = IsLoop w o v

  -- The second pass, after a failure of the first.
  second-LoopPair :
      (response : Option Reply) (w : Wire)
      → IsFailure (post w.posts)
      → LoopPair w (post_from post 1 response (waited (posted w)))
  unfolding post_from
  second-LoopPair response w failed = elim (Option-cases (post (w.posts + 1))) [
    | inl e ↦
        rw e (record { once = omega arith; few = omega arith; ends = refl; retried = λ _. failed })
    | inr (r, e) ↦ elim (Bool-cases (server_error r.status_code)) [
      | inl s ↦
          rw (e, s)
            (record {
              once = omega arith;
              few = omega arith;
              ends = (w.posts + 1, e, omega arith, omega arith);
              retried = λ _. failed;
            })
      | inr s ↦
          rw (e, s)
            (record {
              once = omega arith;
              few = omega arith;
              ends = (w.posts + 1, e, omega arith, omega arith);
              retried = λ _. failed;
            })
    ]
  ]

  loop-LoopPair : (w : Wire) → LoopPair w (post_from post 2 none w)
  unfolding post_from
  loop-LoopPair w = elim (Option-cases (post w.posts)) [
    | inl e ↦ rw e (second-LoopPair none w (rw e tt))
    | inr (r, e) ↦ elim (Bool-cases (server_error r.status_code)) [
      | inl s ↦ rw (e, s) (second-LoopPair (some r) w (rw e s))
      | inr s ↦
          rw (e, s)
            (record {
              once = omega arith;
              few = omega arith;
              ends = (w.posts, e, omega arith, omega arith);
              retried = λ h. absurd (omega arith);
            })
    ]
  ]

module _ (int_of : String → Option ℕ) (post : ℕ → Option Reply) where
  -- An answer is read from the last response, which came with a status of success.
  abbrev pub Answers : Wire → Result TransportError (String × LlmUsage) → Wire → Type 0
  Answers w (ok answer) v =
      (n : ℕ) × (r : Reply) × (post n ≡ some r)
      × (v.posts ≡ suc n)
      × (read_reply int_of r ≡ ok answer)
      × (200 ≤ r.status_code)
      × (r.status_code < 300)
  Answers w (err e) v =
      (e ≡ transport_error)
      ⊎ ((n : ℕ) × (r : Reply) × (post n ≡ some r)
          × (v.posts ≡ suc n)
          × (read_reply int_of r ≡ err e))

  pub record IsCall (w : Wire) (o : Result TransportError (String × LlmUsage)) (v : Wire)
      : Type 0 where
    pub once : w.posts + 1 ≤ v.posts
    pub few : v.posts ≤ w.posts + 2
    pub retried : v.posts ≡ w.posts + 2 → IsFailure post (post w.posts)
    pub answers : Answers w o v

  abbrev pub CallPair : Wire → Result TransportError (String × LlmUsage) × Wire → Type 0
  CallPair w (o, v) = IsCall w o v

  success_status :
      (r : Reply) (answer : String × LlmUsage)
      → read_reply int_of r ≡ ok answer
      → (200 ≤ r.status_code) × (r.status_code < 300)
  unfolding read_reply
  success_status r answer h = elim (Bool-cases (leb 200 r.status_code && ltb r.status_code 300)) [
    | inl e ↦ (ground arith, ground arith)
    | inr e ↦
        let bad : Path (Result TransportError (String × LlmUsage))
            (err (returned_status r.status_code)) (ok answer) =
          rw e at h in
        absurd (cc)
  ]

  read_last :
      (w : Wire) (r : Reply) (n : ℕ) (v : Wire) (o : Result TransportError (String × LlmUsage))
      → read_reply int_of r ≡ o
      → post n ≡ some r
      → v.posts ≡ suc n
      → Answers w o v
  read_last w r n v (ok answer) e last counted =
      let (low, high) = success_status r answer e in (n, r, last, counted, e, low, high)
  read_last w r n v (err x) e last counted = inr (n, r, last, counted, e)

  after_posts-IsCall :
      (w : Wire) (p : Posted) → IsLoop post w p.0 p.1 → CallPair w (after_posts int_of p)
  after_posts-IsCall w (ok r, v) loop = record {
    once = loop.once;
    few = loop.few;
    retried = loop.retried;
    answers =
        let (n, last, _, counted) = loop.ends in
        read_last w r n v (read_reply int_of r) refl last counted;
  }
  after_posts-IsCall w (err e, v) loop = record {
    once = loop.once;
    few = loop.few;
    retried = loop.retried;
    answers = inl loop.ends;
  }

-- A completion posts once or twice, and twice only if the first post raised or came back with a status from
-- 500 to 599. Its text and usage are read from the last response, whose status is from 200 to 299; an error
-- other than one of the transport is what reading the last response came to.
pub complete_text-IsCall :
    (int_of : String → Option ℕ) (post : ℕ → Option Reply) (w : Wire)
    → CallPair int_of post w (complete_text int_of post w)
unfolding complete_text
complete_text-IsCall int_of post w =
    after_posts-IsCall int_of post w (post_from post 2 none w) (loop-LoopPair post w)
