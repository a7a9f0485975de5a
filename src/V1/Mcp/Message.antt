-- ===== src/V1/Mcp/Message.antt =====
-- legacy/v1/src/server/mcp-security.ts: `validateMessage`. `JSON.parse`, the hash, DOMPurify and the text
-- of a zod issue are parameters.
pub mod Accepted
pub mod Replayed
use secure_mcp.Shared.{
  ℕ, not, ◌||◌, Option, none, some, List, [], ◌++◌, ltb, if◌then◌else◌, length, codes,
}
use secure_mcp.V1.Mcp.Cache.{Entry, is_duplicate_request, store_request_hash}
use secure_mcp.V1.Mcp.Schemas.{
  Schema, accepts, allowed_commands, json_rpc_request, json_rpc_response, property, schema_of,
}
use secure_mcp.V1.Mcp.Values.{Value, Entries, text, array, object, has_key, sanitize_data}

-- What the validator calls: `zod_message` is the message of the first issue.
pub record Host : Type 0 where
  pub parse_json : List ℕ → Option Value
  pub hash_message : List ℕ → List ℕ
  pub purify : List ℕ → List ℕ
  pub zod_message : Schema → Entries → List ℕ

-- `none` is success.
unfoldable pub parse_with : Host → Schema → Entries → Option (List ℕ)
unfolding accepts
parse_with host schema es = if accepts schema es then none else some (host.zod_message schema es)

-- `in` throws at a value that is no object.
unfoldable pub validate_json_rpc : Host → Value → Option (List ℕ)
unfolding parse_with
validate_json_rpc host (object proto es) =
    if has_key es (codes "method")
    then parse_with host json_rpc_request es
    else if has_key es (codes "result") || has_key es (codes "error")
    then parse_with host json_rpc_response es
    else some (codes "Invalid JSON-RPC message type")
validate_json_rpc host (array items) = some (codes "Invalid JSON-RPC message type")
validate_json_rpc host _ = some (codes "JSON-RPC validation failed")

-- After the first schema the method is a text.
abbrev pub text_of : Value → List ℕ
text_of (text s) = s
text_of _ = []

unfoldable pub validate_method : Host → Entries → Option (List ℕ)
unfolding parse_with
validate_method host es =
    let method = text_of (property es (codes "method")) in
    elim (schema_of allowed_commands method) [
      | none ↦ some (codes "Method not allowed: " ++ method)
      | some schema ↦ parse_with host schema es
    ]

-- `if ('method' in parsed)`
unfoldable pub validate_if_method : Host → Value → Option (List ℕ)
unfolding validate_method
validate_if_method host (object proto es) =
    if has_key es (codes "method") then validate_method host es else none
validate_if_method host _ = none

pub data Outcome : Type 0 where
  valid : Value → Outcome
  invalid : List ℕ → Outcome

-- From `JSON.parse` to the sanitized value.
unfoldable pub examined : Host → List ℕ → Outcome
unfolding validate_json_rpc validate_if_method
examined host message = elim (host.parse_json message) [
  | none ↦ invalid (codes "Invalid JSON")
  | some parsed ↦ elim (validate_json_rpc host parsed) [
    | some error ↦ invalid error
    | none ↦ elim (validate_if_method host parsed) [
      | some error ↦ invalid error
      | none ↦ valid (sanitize_data host.purify parsed)
    ]
  ]
]

-- The three readings of the clock in one call.
pub record Clock : Type 0 where
  pub checked : ℕ
  pub swept : ℕ
  pub stored : ℕ

abbrev pub max_message : ℕ
max_message = 1048576

-- `validateMessage`, with the cache it leaves.
unfoldable pub validate_message : Host → Clock → List ℕ → List Entry → Outcome × List Entry
unfolding examined is_duplicate_request store_request_hash
validate_message host clock message cache =
    let h = host.hash_message message in
    let (duplicate, looked) = is_duplicate_request clock.checked h cache in
    if ltb max_message (length message)
    then (invalid (codes "Message too large"), cache)
    else if duplicate
    then (invalid (codes "Duplicate request"), looked)
    else elim (examined host message) [
      | invalid error ↦ (invalid error, looked)
      | valid v ↦ (valid v, store_request_hash clock.swept clock.stored h looked)
    ]
