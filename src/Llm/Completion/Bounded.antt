-- ===== src/Llm/Completion/Bounded.antt =====
-- What one call of `complete_json` of llm/base.py costs and returns.
use athome_japan_agent_harne.Common.{
  ℕ, suc, ◌+◌, ◌≤◌, ◌≡◌, refl, String, Option, none, some, arith, Result, ok, err,
}
use athome_japan_agent_harne.Llm.Completion.{
  LlmUsage, add_usage, Llm, LlmError, provider_error, json_invalid, Transport, called, record_usage,
  after_repair, repaired, after_first, after_completion, complete_json,
}

usage_eq :
    (a b c d : ℕ)
    → a ≡ c
    → b ≡ d
    → Path LlmUsage
        (record { prompt_tokens = a; completion_tokens = b })
        (record { prompt_tokens = c; completion_tokens = d })
usage_eq a b c d e f = rw (e, f) refl

add_usage_assoc : (a b c : LlmUsage) → add_usage (add_usage a b) c ≡ add_usage a (add_usage b c)
add_usage_assoc a b c =
    usage_eq (a.prompt_tokens + b.prompt_tokens + c.prompt_tokens)
      (a.completion_tokens + b.completion_tokens + c.completion_tokens)
      (a.prompt_tokens + (b.prompt_tokens + c.prompt_tokens))
      (a.completion_tokens + (b.completion_tokens + c.completion_tokens)) (omega arith)
      (omega arith)

module _ {A : Type 0} (complete_text : Transport) (extract_json : String → Option A)
    (repair_prompt : (user completion : String) → String) where
  -- The text of the call of that number, and what it used.
  pub record Answered (n : ℕ) (text : String) (usage : LlmUsage) : Type 0 where
    pub system : String
    pub user : String
    pub answered : complete_text n system user ≡ some (text, usage)

  -- A value is read from the last completion, and the usage beside it is what the total grew by. Invalid
  -- JSON is reported after two completions, neither of which can be read.
  abbrev pub Explains : Llm → Result LlmError (A × LlmUsage) → Llm → Type 0
  Explains p (ok (a, usage)) q =
      (n : ℕ) × (text : String) × (last : LlmUsage) × Answered n text last
      × (extract_json text ≡ some a)
      × (q.calls ≡ suc n)
      × (q.total_usage ≡ add_usage p.total_usage usage)
  Explains p (err json_invalid) q =
      (first second : String) × (u v : LlmUsage) × Answered p.calls first u
      × Answered (p.calls + 1) second v
      × (extract_json first ≡ none)
      × (extract_json second ≡ none)
      × (q.calls ≡ p.calls + 2)
  Explains p (err provider_error) q = Unit

  pub record IsCompletion (p : Llm) (r : Result LlmError (A × LlmUsage)) (q : Llm) : Type 0 where
    pub few : q.calls ≤ p.calls + 2
    pub some_call : p.calls + 1 ≤ q.calls
    pub explains : Explains p r q

  abbrev pub CompletionPair : Llm → Result LlmError (A × LlmUsage) × Llm → Type 0
  CompletionPair p (r, q) = IsCompletion p r q

  module _ (p : Llm) (system user : String) where
    repaired-IsCompletion :
        (prompt text : String) (usage : LlmUsage) (o : Option (String × LlmUsage))
        → Answered p.calls text usage
        → extract_json text ≡ none
        → complete_text (p.calls + 1) system prompt ≡ o
        → CompletionPair p (
            repaired complete_text extract_json repair_prompt usage o
              (called (record_usage usage (called p))))
    repaired-IsCompletion prompt text usage none first unread e = record {
      few = omega arith;
      some_call = omega arith;
      explains = tt;
    }
    repaired-IsCompletion prompt text usage (some (second, repair_usage)) first unread e =
        read_second (extract_json second) refl
      where
        read_second :
            (o : Option A)
            → extract_json second ≡ o
            → CompletionPair p (
                after_repair complete_text extract_json repair_prompt o
                  (add_usage usage repair_usage)
                  (record_usage repair_usage (called (record_usage usage (called p)))))
        read_second none unreadable = record {
          few = omega arith;
          some_call = omega arith;
          explains = (
            text,
            second,
            usage,
            repair_usage,
            first,
            record { system = system; user = prompt; answered = e },
            unread,
            unreadable,
            omega arith,
          );
        }
        read_second (some a) read = record {
          few = omega arith;
          some_call = omega arith;
          explains = (
            p.calls + 1,
            second,
            repair_usage,
            record { system = system; user = prompt; answered = e },
            read,
            omega arith,
            add_usage_assoc p.total_usage usage repair_usage,
          );
        }

    after_first-IsCompletion :
        (text : String) (usage : LlmUsage) (o : Option A)
        → Answered p.calls text usage
        → extract_json text ≡ o
        → CompletionPair p (
            after_first complete_text extract_json repair_prompt system user text usage o
              (record_usage usage (called p)))
    after_first-IsCompletion text usage (some a) first read = record {
      few = omega arith;
      some_call = omega arith;
      explains = (p.calls, text, usage, first, read, omega arith, refl);
    }
    after_first-IsCompletion text usage none first unread =
        repaired-IsCompletion (repair_prompt user text) text usage
          (complete_text (p.calls + 1) system (repair_prompt user text)) first unread refl

    after_completion-IsCompletion :
        (o : Option (String × LlmUsage))
        → complete_text p.calls system user ≡ o
        → CompletionPair p
            (after_completion complete_text extract_json repair_prompt system user o (called p))
    after_completion-IsCompletion none e = record {
      few = omega arith;
      some_call = omega arith;
      explains = tt;
    }
    after_completion-IsCompletion (some (text, usage)) e =
        after_first-IsCompletion text usage (extract_json text)
          (record { system = system; user = user; answered = e }) refl

-- `complete_json` calls the transport once or twice. A value that it returns was read from the last of these
-- completions, and the usage beside it is what the provider's total has grown by. It reports invalid JSON
-- only when it has made two completions, neither of which could be read.
pub complete_json-IsCompletion :
    {A : Type 0} (complete_text : Transport) (extract_json : String → Option A)
    (repair_prompt : (user completion : String) → String) (system user : String) (p : Llm)
    → CompletionPair complete_text extract_json repair_prompt p
        (complete_json complete_text extract_json repair_prompt system user p)
unfolding complete_json
complete_json-IsCompletion complete_text extract_json repair_prompt system user p =
    after_completion-IsCompletion complete_text extract_json repair_prompt p system user
      (complete_text p.calls system user) refl
