-- ===== src/Llm/Transport.antt =====
-- llm/openai_compat.py, `complete_text` with debug off. What the session's post does is an argument, given how
-- many posts there were before: a response, or nothing where it raises. Numbers in a body are natural, and
-- the number that a text writes is an argument.
pub mod Replies
mod Tests
use athome_japan_agent_harne.Common.{
  ℕ, zero, suc, ◌+◌, String, ◌==◌, Bool, true, false, not, ◌&&◌, ◌||◌, Option, none, some, List, [],
  ◌∷◌, leb, ltb, eqb, if◌then◌else◌, Result, ok, err, ◌>>=◌,
}
use athome_japan_agent_harne.Llm.Completion.{LlmUsage}

-- A JSON value; the items of an array and the fields of an object are lists of their own.
mutual
  pub data Json : Type 0 where
    null : Json
    bool : Bool → Json
    number : ℕ → Json
    str : String → Json
    array : Items → Json
    object : Fields → Json

  pub data Items : Type 0 where
    no_items : Items
    item : Json → Items → Items

  pub data Fields : Type 0 where
    no_fields : Fields
    field : String → Json → Fields → Fields

-- `body.get(name)`
abbrev pub field_of : String → Fields → Option Json
field_of name no_fields = none
field_of name (field n v more) = if n == name then some v else field_of name more

pub record Reply : Type 0 where
  pub status_code : ℕ
  -- nothing where the body is no JSON
  pub body : Option Json

-- What leaves `complete_text` as an `LLMProviderError`.
pub data TransportError : Type 0 where
  transport_error no_response unparseable no_object missing_content invalid_usage : TransportError
  returned_status : ℕ → TransportError

pub record Wire : Type 0 where
  pub posts : ℕ
  pub slept : ℕ

abbrev pub posted : Wire → Wire
posted w = record w { posts = w.posts + 1 }

-- `time.sleep(_TRANSPORT_RETRY_DELAY_S)`, in seconds
abbrev pub waited : Wire → Wire
waited w = record w { slept = w.slept + 1 }

abbrev pub server_error : ℕ → Bool
server_error status_code = leb 500 status_code && ltb status_code 600

abbrev pub Posted : Type 0
Posted = Result TransportError Reply × Wire

-- One pass of the loop, given whether it is the last.
abbrev pub after_post :
    Bool → (Option Reply → Wire → Posted) → Option Reply → Option Reply → Wire → Posted
after_post true rest response none w = (err transport_error, w)
after_post false rest response none w = rest response (waited w)
after_post true rest response (some r) w =
    if server_error r.status_code then rest (some r) w else (ok r, w)
after_post false rest response (some r) w =
    if server_error r.status_code then rest (some r) (waited w) else (ok r, w)

abbrev pub after_loop : Option Reply → Wire → Posted
after_loop none w = (err no_response, w)
after_loop (some r) w = (ok r, w)

-- `for attempt in range(1, _MAX_TRANSPORT_ATTEMPTS + 1)`, with the passes left and the last response
unfoldable pub post_from : (ℕ → Option Reply) → ℕ → Option Reply → Wire → Posted
post_from post zero response w = after_loop response w
post_from post (suc n) response w =
    after_post (eqb n 0) (post_from post n) response (post w.posts) (posted w)

abbrev max_transport_attempts : ℕ
max_transport_attempts = 2

abbrev parsed : Json → Result TransportError Fields
parsed (object fields) = ok fields
parsed _ = err no_object

-- `_parse_body`
abbrev pub parse_body : Option Json → Result TransportError Fields
parse_body none = err unparseable
parse_body (some raw) = parsed raw

abbrev content_text : Option Json → Result TransportError String
content_text (some (str content)) = ok content
content_text _ = err missing_content

abbrev message_content : Option Json → Result TransportError String
message_content (some (object message)) = content_text (field_of "content" message)
message_content _ = err missing_content

abbrev first_choice : Option Json → Result TransportError String
first_choice (some (array (item (object choice) more))) =
    message_content (field_of "message" choice)
first_choice _ = err missing_content

-- `_extract_content`
unfoldable pub extract_content : Fields → Result TransportError String
extract_content body = first_choice (field_of "choices" body)

module _ (int_of : String → Option ℕ) where
  -- `int(value or 0)`, nothing where it raises
  abbrev pub token_count : Option Json → Option ℕ
  token_count none = some 0
  token_count (some null) = some 0
  token_count (some (bool b)) = some (if b then 1 else 0)
  token_count (some (number n)) = some n
  token_count (some (str s)) = if s == "" then some 0 else int_of s
  token_count (some (array no_items)) = some 0
  token_count (some (array (item i more))) = none
  token_count (some (object no_fields)) = some 0
  token_count (some (object (field n v more))) = none

  abbrev counted : Option ℕ → Option ℕ → Result TransportError LlmUsage
  counted (some p) (some c) = ok (record { prompt_tokens = p; completion_tokens = c })
  counted _ _ = err invalid_usage

  abbrev usage_of : Option Json → Result TransportError LlmUsage
  usage_of (some (object usage)) =
      counted (token_count (field_of "prompt_tokens" usage))
        (token_count (field_of "completion_tokens" usage))
  usage_of _ = ok (record { prompt_tokens = 0; completion_tokens = 0 })

  -- `_extract_usage`
  unfoldable pub extract_usage : Fields → Result TransportError LlmUsage
  extract_usage body = usage_of (field_of "usage" body)

  -- What is read from a response.
  unfoldable pub read_reply : Reply → Result TransportError (String × LlmUsage)
  unfolding extract_content extract_usage
  read_reply r =
      if leb 200 r.status_code && ltb r.status_code 300
      then (parse_body r.body >>= (λ body.
          extract_usage body
          >>= (λ usage. extract_content body >>= (λ content. ok (content, usage)))))
      else err (returned_status r.status_code)

  abbrev pub after_posts : Posted → Result TransportError (String × LlmUsage) × Wire
  after_posts (err e, w) = (err e, w)
  after_posts (ok r, w) = (read_reply r, w)

  unfoldable pub complete_text :
      (ℕ → Option Reply) → Wire → Result TransportError (String × LlmUsage) × Wire
  unfolding post_from read_reply
  complete_text post w = after_posts (post_from post max_transport_attempts none w)
