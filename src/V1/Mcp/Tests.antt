-- ===== src/V1/Mcp/Tests.antt =====
-- A ping with a dangerous key, its replay, and tools, commands and resources; the laws at these.
use secure_mcp.Shared.{
  ℕ, ◌≤◌, ◌≡◌, refl, ◌⊎◌, true, false, not, ◌&&◌, some, List, [], ◌∷◌, ◌++◌, arith, ◌==◌, length,
  any, keep, codes,
}
use secure_mcp.Http.Target.{same}
use secure_mcp.V1.Mcp.Cache.{Entry, get, max_cache_size}
use secure_mcp.V1.Mcp.Values.{
  Value, Entries, undefined, null, number, text, array, object, end, item, none_left, entry, plain,
  bare, nan, finite, sanitize_output, sanitize_data,
}
use secure_mcp.V1.Mcp.Message.{Host, Clock, valid, invalid, validate_message, max_message}
use secure_mcp.V1.Mcp.Schemas.{property, allowed_commands, schema_of, Schema}
use secure_mcp.V1.Mcp.Message.Accepted.{IsAccepted, validate_message-IsAccepted}
use secure_mcp.V1.Mcp.Message.Replayed.{
  after_messages, length-after_messages, validate_message-replay,
}
use secure_mcp.V1.Mcp.Requests.{
  accepted, refused, validate_command, validate_tool_execution, validate_resource_access,
  validate_request_id, sanitize_tool_args, is_bad_expression, allowed_tool_operations, is_objective,
}
use secure_mcp.V1.Mcp.Requests.Bounded.{IsBounded, validate_tool_execution-IsBounded}
use secure_mcp.V1.Mcp.Requests.Commands.{depth_of, validate_command-accepted}

abbrev ping : Entries
ping = entry (codes "jsonrpc") (text (codes "2.0")) (
    entry (codes "method") (text (codes "ping")) (
      entry (codes "__proto__") (object plain none_left)
        (entry (codes "id") (text (codes "<1")) none_left)))

abbrev cleaned : Value
cleaned = object plain (
    entry (codes "jsonrpc") (text (codes "2.0")) (
      entry (codes "method") (text (codes "ping"))
        (entry (codes "id") (text (codes "1")) none_left)))

-- A stand-in for the parser reads every text as this message.
abbrev host : Host
host = record {
  parse_json = λ m. some (object plain ping);
  hash_message = λ m. m;
  purify = keep (λ c. not (c == b'<'));
  zod_message = λ schema es. codes "issue";
}

abbrev clock : ℕ → Clock
clock t = record { checked = t; swept = t; stored = t }

abbrev stored_once : List Entry
stored_once = record { key = codes "a"; timestamp = 5 } ∷ []

accepted_once : validate_message host (clock 5) (codes "a") [] ≡ (valid cleaned, stored_once)
unfolding validate_message sanitize_data
accepted_once = refl

validate_message-IsAccepted_example :
    (length (codes "a") ≤ max_message)
    × (IsAccepted host (codes "a") cleaned × (get stored_once (codes "a") ≡ some 5))
validate_message-IsAccepted_example =
    validate_message-IsAccepted host (clock 5) (codes "a") [] stored_once cleaned accepted_once

abbrev others : List (Clock × List ℕ)
others = (clock 10, codes "b") ∷ (clock 20, codes "c") ∷ []

validate_message-replay_example :
    validate_message host (clock 60004) (codes "a") (after_messages host others stored_once)
    ≡ (invalid (codes "Duplicate request"), after_messages host others stored_once)
validate_message-replay_example =
    validate_message-replay host (clock 5) (codes "a") [] stored_once cleaned others (clock 60004)
      accepted_once (omega arith) (omega arith, (omega arith, tt)) (omega arith)

length-after_messages_example : length (after_messages host others []) ≤ max_cache_size
length-after_messages_example = length-after_messages host others [] (omega arith)

abbrev secrets : Value
secrets = object plain (
    entry (codes "userToken") (number nan) (
      entry (codes "rows") (array (item (text (codes "Password = 'x' api-key=\"y\" token=z")) end))
        none_left))

masked :
    sanitize_output secrets
    ≡ object plain (
        entry (codes "userToken") (text (codes "***")) (
          entry
            (codes "rows")
            (array (item (text (codes "password=*** api_key=*** token=z")) end))
            none_left))
unfolding sanitize_output
masked = refl

abbrev tool_args : Value
tool_args = object plain (
    entry (codes "expression") (text (codes "1+<2"))
      (entry (codes "a-b") null (entry (codes "deep") (object plain none_left) none_left)))

abbrev numeral : ℕ → List ℕ
numeral i = codes "0"

validate_tool_execution-IsBounded_example :
    let tool = codes "calculate" in
    let sanitized = sanitize_tool_args numeral host.purify tool_args in
    let listed = any (λ t. same t tool) allowed_tool_operations in
    let bad =
      same tool (codes "calculate")
      && is_bad_expression (property sanitized (codes "expression")) in
    let result = validate_tool_execution numeral host.purify tool tool_args in
    ((listed ≡ false) × (result ≡ refused (codes "Tool not allowed: " ++ tool)))
    ⊎ ((listed ≡ true)
        × ((bad ≡ true) × (result ≡ refused (codes "Invalid calculation expression"))))
    ⊎ ((listed ≡ true) × ((bad ≡ false) × ((result ≡ accepted sanitized) × IsBounded sanitized)))
validate_tool_execution-IsBounded_example =
    validate_tool_execution-IsBounded numeral host.purify (codes "calculate") tool_args

tools :
    (validate_tool_execution numeral host.purify (codes "calculate") tool_args
      ≡ accepted (entry (codes "expression") (text (codes "1+2")) none_left))
    × (validate_tool_execution numeral host.purify (codes "shell") tool_args
        ≡ refused (codes "Tool not allowed: shell"))
unfolding validate_tool_execution
tools = (refl, refl)

abbrev bare_args : Value
bare_args = object bare (entry (codes "uri") (array end) none_left)

validate_command-accepted_example :
    ((schema : Schema) × (schema_of allowed_commands (codes "ping") ≡ some schema))
    × ((is_objective bare_args ≡ false)
        ⊎ ((es : Entries) × ((bare_args ≡ object bare es) × (depth_of bare_args ≤ 11))))
unfolding validate_command
validate_command-accepted_example = validate_command-accepted (codes "ping") bare_args refl

commands :
    (validate_command (codes "ping") (object plain none_left)
      ≡ refused (codes "Dangerous property detected"))
    × (validate_command (codes "ping") (array end) ≡ refused (codes "Dangerous property detected"))
    × (validate_command (codes "ping") undefined ≡ accepted tt)
unfolding validate_command
commands = (refl, refl, refl)

resources :
    (validate_resource_access (codes "data/../b.json") ≡ refused (codes "Path traversal detected"))
    × (validate_resource_access (codes "data/.json")
        ≡ refused (codes "Resource access denied: data/.json"))
unfolding validate_resource_access
resources = (refl, refl)

request_ids :
    (validate_request_id (number (finite false 1 1074)) ≡ true)
    × (validate_request_id (number (finite false 0 0)) ≡ false)
    × (validate_request_id (number (finite false 1 1127)) ≡ false)
    × (validate_request_id (text (codes "a-1")) ≡ true)
unfolding validate_request_id
request_ids = (refl, refl, refl, refl)
