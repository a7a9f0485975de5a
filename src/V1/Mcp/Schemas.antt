-- ===== src/V1/Mcp/Schemas.antt =====
-- legacy/v1/src/server/mcp-security.ts: the schemas of the messages and the allowed commands.
use secure_mcp.Shared.{
  ℕ, Bool, true, false, not, ◌&&◌, ◌||◌, Option, none, some, List, [], ◌∷◌, ltb, leb, ◌==◌,
  if◌then◌else◌, length, all, codes, is_digit, is_alnum,
}
use secure_mcp.Http.Target.{same}
use secure_mcp.V1.Mcp.Values.{
  Value, Entries, undefined, null, boolean, number, text, array, object, none_left, entry, nan,
  infinite, finite,
}

-- The own entry of a key; `undefined` if there is none.
abbrev pub property : Entries → List ℕ → Value
property none_left k = undefined
property (entry key v es) k = if same key k then v else property es k

abbrev pub truthy : Value → Bool
truthy undefined = false
truthy null = false
truthy (boolean b) = b
truthy (number nan) = false
truthy (number (infinite negative)) = true
truthy (number (finite negative m e)) = ltb 0 m
truthy (text s) = ltb 0 (length s)
truthy (array items) = true
truthy (object proto es) = true

abbrev pub is_text : (List ℕ → Bool) → Value → Bool
is_text p (text s) = p s
is_text p _ = false

-- `z.number()` refuses only what is not a number.
abbrev pub is_number : Value → Bool
is_number (number nan) = false
is_number (number n) = true
is_number _ = false

abbrev pub is_undefined : Value → Bool
is_undefined undefined = true
is_undefined _ = false

abbrev pub is_null : Value → Bool
is_null null = true
is_null _ = false

abbrev pub is_object : (Entries → Bool) → Value → Bool
is_object p (object proto es) = p es
is_object p _ = false

-- `z.string().min(1).max(most).regex(/^[…]+$/)`
abbrev pub is_name : ℕ → (ℕ → Bool) → List ℕ → Bool
is_name most p s = leb 1 (length s) && (leb (length s) most && all p s)

abbrev pub is_method_char : ℕ → Bool
is_method_char c = is_alnum c || (c == b'_' || (c == b'/' || (c == b'.' || c == b'-')))

abbrev pub is_tool_char : ℕ → Bool
is_tool_char c = is_alnum c || (c == b'_' || c == b'-')

abbrev pub is_uri_char : ℕ → Bool
is_uri_char c = is_alnum c || (c == b':' || (c == b'/' || (c == b'_' || (c == b'.' || c == b'-'))))

abbrev pub is_id : Value → Bool
is_id v = is_text (λ s. true) v || is_number v

abbrev pub is_version_two : Entries → Bool
is_version_two es = is_text (λ s. same s (codes "2.0")) (property es (codes "jsonrpc"))

-- The digits at the start of a text, passed over.
abbrev pub skip_digits : List ℕ → List ℕ
skip_digits [] = []
skip_digits (c ∷ cs) = if is_digit c then skip_digits cs else c ∷ cs

-- `\d+` and `\.\d+` at the start of a text, and what is behind them.
abbrev pub number_part : List ℕ → Option (List ℕ)
number_part [] = none
number_part (c ∷ cs) = if is_digit c then some (skip_digits cs) else none

abbrev pub dot_part : List ℕ → Option (List ℕ)
dot_part [] = none
dot_part (c ∷ cs) = if c == b'.' then number_part cs else none

-- `/^\d+\.\d+\.\d+$/`
abbrev pub is_dotted : List ℕ → Bool
is_dotted s = elim (number_part s) [
  | none ↦ false
  | some minor ↦ elim (dot_part minor) [
    | none ↦ false
    | some patch ↦ elim (dot_part patch) [ none ↦ false | some rest ↦ same rest [] ]
  ]
]

pub data Schema : Type 0 where
  json_rpc_request json_rpc_response initialize_request tool_call_request : Schema
  resource_read_request : Schema

abbrev pub is_initialize_params : Entries → Bool
is_initialize_params ps =
    let capabilities = property ps (codes "capabilities") in
    let info = property ps (codes "clientInfo") in
    is_text is_dotted (property ps (codes "protocolVersion"))
    && ((is_undefined capabilities || is_object (λ es. true) capabilities)
        && is_object
            (λ es.
              is_text (λ s. leb (length s) 100) (property es (codes "name"))
              && is_text (λ s. leb (length s) 50) (property es (codes "version")))
            info)

abbrev pub is_tool_params : Entries → Bool
is_tool_params ps =
    let arguments = property ps (codes "arguments") in
    is_text (is_name 100 is_tool_char) (property ps (codes "name"))
    && (is_undefined arguments || is_object (λ es. true) arguments)

abbrev pub is_error : Value → Bool
is_error v =
    is_object
      (λ es.
        is_number (property es (codes "code"))
        && is_text (λ s. true) (property es (codes "message")))
      v

-- Whether `schema.parse` accepts an object with these entries.
unfoldable pub accepts : Schema → Entries → Bool
accepts json_rpc_request es =
    let id = property es (codes "id") in
    is_version_two es
    && (is_text (is_name 100 is_method_char) (property es (codes "method"))
        && (is_undefined id || (is_id id || is_null id)))
accepts json_rpc_response es =
    let id = property es (codes "id") in
    let error = property es (codes "error") in
    is_version_two es
    && ((is_undefined error || is_error error)
        && ((is_id id || is_null id)
            && (if truthy (property es (codes "result"))
                then not (truthy error)
                else truthy error)))
accepts initialize_request es =
    is_version_two es
    && (is_text (λ s. same s (codes "initialize")) (property es (codes "method"))
        && (is_object is_initialize_params (property es (codes "params"))
            && is_id (property es (codes "id"))))
accepts tool_call_request es =
    is_version_two es
    && (is_text (λ s. same s (codes "tools/call")) (property es (codes "method"))
        && (is_object is_tool_params (property es (codes "params"))
            && is_id (property es (codes "id"))))
accepts resource_read_request es =
    is_version_two es
    && (is_text (λ s. same s (codes "resources/read")) (property es (codes "method"))
        && (is_object (λ ps. is_text (is_name 500 is_uri_char) (property ps (codes "uri")))
              (property es (codes "params"))
            && is_id (property es (codes "id"))))

abbrev pub allowed_commands : List (List ℕ × Schema)
allowed_commands =
    (codes "initialize", initialize_request)
    ∷ (codes "tools/list", json_rpc_request)
    ∷ (codes "tools/call", tool_call_request)
    ∷ (codes "resources/list", json_rpc_request)
    ∷ (codes "resources/read", resource_read_request)
    ∷ (codes "ping", json_rpc_request)
    ∷ []

abbrev pub schema_of : List (List ℕ × Schema) → List ℕ → Option Schema
schema_of [] command = none
schema_of ((name, schema) ∷ rest) command =
    if same name command then some schema else schema_of rest command
