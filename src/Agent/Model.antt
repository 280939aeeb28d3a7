-- ===== src/Agent/Model.antt =====
-- internal/llm/llm.go: the client of the model's server. net/http and encoding/json are parameters.
use go_core_mcp.Prelude.{
  ℕ, Bool, false, not, Option, none, some, List, [], ◌∷◌, ◌++◌, Bytes, lit, bytes_eq, ltb, ◌==◌,
  if◌then◌else◌, take,
}
use go_core_mcp.Outcome.{Outcome, ok, err, reject_if, ◌>>=◌, ◌>>◌}
use go_core_mcp.Strings.{trim_right}
use go_core_mcp.Agent.Messages.{Message, Tool, max_output_tokens}

-- `chatRequest`; its temperature is 0 and it does not stream.
pub record ChatRequest : Type 0 where
  pub model : Bytes
  pub messages : List Message
  pub tools : List Tool
  pub tool_choice : Bytes
  pub max_tokens : ℕ

-- `chatResponse`; of a choice, its message is used.
pub record ChatResponse : Type 0 where
  pub choices : List Message
  pub error : Option Bytes

pub data LlmError : Type 0 where
  bad_request not_encoded unreachable request_failed unreadable not_json no_choices : LlmError
  bad_status : ℕ → LlmError
  model_error : Bytes → LlmError

-- A response: its status and its body, of which reading may fail.
pub record HttpResponse : Type 0 where
  pub status : ℕ
  pub body : Option Bytes

-- http.NewRequest accepts a URL; a request is answered, or fails; the JSON of requests and responses.
pub record ModelNet : Type 0 where
  pub accepts : Bytes → Bool
  pub get : Bytes → Option HttpResponse
  pub post : Bytes → Bytes → Option HttpResponse
  pub encode : ChatRequest → Option Bytes
  pub decode : Bytes → Option ChatResponse

pub record Client : Type 0 where
  pub base_url : Bytes
  pub model : Bytes

-- `New`
unfoldable pub new : Bytes → Bytes → Client
new base_url model = record { base_url = trim_right base_url 47; model = model }

is_alive : Option HttpResponse → Bool
is_alive none = false
is_alive (some r) = ltb r.status 500

or_fail : {A : Type 0} → LlmError → Option A → Outcome LlmError A
or_fail e none = err e
or_fail e (some a) = ok a

with_role : Message → Message
unfolding bytes_eq
with_role m = if bytes_eq m.role [] then record m { role = lit "assistant" } else m

first_choice : List Message → Outcome LlmError Message
unfolding with_role
first_choice [] = err no_choices
first_choice (m ∷ ms) = ok (with_role m)

not_failed : Option Bytes → Outcome LlmError (Unit {0})
not_failed none = ok tt
not_failed (some message) = err (model_error message)

module _ (net : ModelNet) (client : Client) where
  -- The loop of `Ping`.
  ping_any : List Bytes → Outcome LlmError (Unit {0})
  unfolding is_alive
  ping_any [] = err unreachable
  ping_any (path ∷ paths) =
      let rest = ping_any paths in
      if not (net.accepts (client.base_url ++ path))
      then err bad_request
      else if is_alive (net.get (client.base_url ++ path))
      then ok tt
      else rest

  -- `Ping`
  unfoldable pub ping : Outcome LlmError (Unit {0})
  unfolding ping_any
  ping = ping_any (lit "/health" ∷ lit "/v1/models" ∷ [])

  request_of : List Message → List Tool → ChatRequest
  request_of messages tools = record {
    model = client.model;
    messages = messages;
    tools = tools;
    tool_choice = elim tools [ [] ↦ [] | t ∷ ts ↦ lit "auto" ];
    max_tokens = max_output_tokens;
  }

  -- `Complete`
  unfoldable pub complete : List Message → List Tool → Outcome LlmError Message
  unfolding request_of or_fail not_failed first_choice
  complete messages tools = do
    encoded ← or_fail not_encoded (net.encode (request_of messages tools))
    let url = client.base_url ++ lit "/v1/chat/completions"
    reject_if (not (net.accepts url)) bad_request
    response ← or_fail request_failed (net.post url encoded)
    payload ← or_fail unreadable response.body
    reject_if (not (response.status == 200)) (bad_status response.status)
    decoded ← or_fail not_json (net.decode (take 1048576 payload))
    not_failed decoded.error
    first_choice decoded.choices
