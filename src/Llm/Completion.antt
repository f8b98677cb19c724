-- ===== src/Llm/Completion.antt =====
-- llm/base.py with debug off. What the transport does is an argument: given how many completions there were
-- before, and the messages, a text with its usage, or nothing where it raises. So is what reading the JSON
-- of a text against the schema comes to, and the prompt of the repair.
pub mod Bounded
use athome_japan_agent_harne.Common.{ℕ, ◌+◌, String, Option, none, some, Result, ok, err}

pub record LlmUsage : Type 0 where
  pub prompt_tokens : ℕ
  pub completion_tokens : ℕ

unfoldable pub total_tokens : LlmUsage → ℕ
total_tokens u = u.prompt_tokens + u.completion_tokens

-- The sum that `_record_usage` and `complete_json` build field by field.
abbrev pub add_usage : LlmUsage → LlmUsage → LlmUsage
add_usage a b = record {
  prompt_tokens = a.prompt_tokens + b.prompt_tokens;
  completion_tokens = a.completion_tokens + b.completion_tokens;
}

-- A provider: its total, and how often the transport was called.
pub record Llm : Type 0 where
  pub total_usage : LlmUsage
  pub calls : ℕ

-- `LLMProviderError` of the transport, and `LLMJSONInvalidError`
pub data LlmError : Type 0 where
  provider_error json_invalid : LlmError

abbrev pub Transport : Type 0
Transport = ℕ → (system user : String) → Option (String × LlmUsage)

abbrev pub called : Llm → Llm
called p = record p { calls = p.calls + 1 }

abbrev pub record_usage : LlmUsage → Llm → Llm
record_usage usage p = record p { total_usage = add_usage p.total_usage usage }

module _ {A : Type 0} (complete_text : Transport) (extract_json : String → Option A)
    (repair_prompt : (user completion : String) → String) where
  abbrev pub Completed : Type 0
  Completed = Result LlmError (A × LlmUsage) × Llm

  abbrev pub after_repair : Option A → LlmUsage → Llm → Completed
  after_repair none merged_usage p = (err json_invalid, p)
  after_repair (some a) merged_usage p = (ok (a, merged_usage), p)

  abbrev pub repaired : LlmUsage → Option (String × LlmUsage) → Llm → Completed
  repaired usage none p = (err provider_error, p)
  repaired usage (some (text, repair_usage)) p =
      after_repair (extract_json text) (add_usage usage repair_usage) (record_usage repair_usage p)

  abbrev pub after_first : (system user text : String) → LlmUsage → Option A → Llm → Completed
  after_first system user text usage (some a) p = (ok (a, usage), p)
  after_first system user text usage none p =
      repaired usage (complete_text p.calls system (repair_prompt user text)) (called p)

  abbrev pub after_completion :
      (system user : String) → Option (String × LlmUsage) → Llm → Completed
  after_completion system user none p = (err provider_error, p)
  after_completion system user (some (text, usage)) p =
      after_first system user text usage (extract_json text) (record_usage usage p)

  unfoldable pub complete_json : (system user : String) → Llm → Completed
  complete_json system user p =
      after_completion system user (complete_text p.calls system user) (called p)
