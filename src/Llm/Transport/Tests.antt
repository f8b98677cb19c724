-- ===== src/Llm/Transport/Tests.antt =====
-- Runs of `complete_text` of llm/openai_compat.py: an overloaded endpoint, and then an answer.
use athome_japan_agent_harne.Common.{ℕ, zero, suc, String, ◌≡◌, refl, Option, none, some, ok}
use athome_japan_agent_harne.Llm.Transport.{
  Json, null, number, str, array, object, no_items, item, no_fields, field, Reply, Wire,
  complete_text, post_from, read_reply, extract_content, extract_usage,
}
use athome_japan_agent_harne.Llm.Transport.Replies.{CallPair, complete_text-IsCall}

abbrev body : Json
body = object (
    field "choices"
      (array (
        item (object (field "message" (object (field "content" (str "{}") no_fields)) no_fields))
          no_items))
      (field "usage"
        (object (field "prompt_tokens" (number 7) (field "completion_tokens" null no_fields)))
        no_fields))

abbrev post : ℕ → Option Reply
post zero = some (record { status_code = 503; body = none })
post (suc n) = some (record { status_code = 200; body = some body })

abbrev no_number : String → Option ℕ
no_number text = none

abbrev idle : Wire
idle = record { posts = 0; slept = 0 }

answered : complete_text no_number post idle ≡ (
  ok ("{}", record { prompt_tokens = 7; completion_tokens = 0 }),
  record { posts = 2; slept = 1 },
)
unfolding complete_text post_from read_reply extract_content extract_usage
answered = refl

complete_text-IsCall_example : CallPair no_number post idle (complete_text no_number post idle)
complete_text-IsCall_example = complete_text-IsCall no_number post idle
