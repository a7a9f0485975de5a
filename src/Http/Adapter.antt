-- ===== src/Http/Adapter.antt =====
-- src/http.ts: the `fetch` that answers an admitted request. The SDK's own `handler.fetch` and the audit
-- are parameters, the fields of `Fetch`.
pub mod Guards
use secure_mcp.Shared.{
  ℕ, String, Bool, true, false, not, ◌&&◌, ◌||◌, List, [], ◌∷◌, str_eq, leb, ◌==◌, if◌then◌else◌,
  includes,
}
use secure_mcp.Errors.{Outcome, value, raised}

pub data Endpoint : Type 0 where
  mcp metrics : Endpoint

pub record Fetch : Type 0 where
  pub endpoint : Endpoint
  pub scopes : List String
  pub method : String
  -- `await request.clone().text()`, which may throw
  pub body : Outcome (List ℕ)
  -- the status of the SDK's response
  pub sdk : Outcome ℕ
  -- whether the audit acknowledges the record of a response with this status, and its health after
  pub accepts : ℕ → Bool
  pub healthy : Bool

pub data Content : Type 0 where
  forbidden method_not_allowed metrics_text batch_refused sdk_body failed : Content

pub record Response : Type 0 where
  pub status : ℕ
  pub content : Content

-- `\s` of a regular expression
abbrev pub is_space : ℕ → Bool
is_space c =
    (leb 9 c && leb c 13)
    || (c == 32
        || (c == 0xa0
            || (c == 0x1680
                || ((leb 0x2000 c && leb c 0x200a)
                    || (c == 0x2028
                        || (c == 0x2029
                            || (c == 0x202f || (c == 0x205f || (c == 0x3000 || c == 0xfeff)))))))))

-- `/^\s*\[/`
unfoldable pub is_batch : List ℕ → Bool
is_batch [] = false
is_batch (c ∷ cs) = c == b'[' || (is_space c && is_batch cs)

abbrev pub respond : ℕ → Content → Response
respond status content = record { status = status; content = content }

abbrev pub metrics_response : List String → String → Response
metrics_response scopes method =
    if not (includes scopes "metrics:read")
    then respond 403 forbidden
    else if not (str_eq method "GET")
    then respond 405 method_not_allowed
    else respond 200 metrics_text

abbrev pub from_sdk : Outcome ℕ → Outcome Response
from_sdk (raised e) = raised e
from_sdk (value status) = value (respond status sdk_body)

-- Whether the body is read and is a batch.
abbrev pub batch : Fetch → Outcome Bool
batch f = if str_eq f.method "POST" then read f.body else value false
  where
    read : Outcome (List ℕ) → Outcome Bool
    read (raised e) = raised e
    read (value text) = value (is_batch text)

abbrev pub mcp_response : Fetch → Outcome Bool → Outcome Response
mcp_response f (raised e) = raised e
mcp_response f (value true) = value (respond 400 batch_refused)
mcp_response f (value false) = from_sdk f.sdk

unfoldable pub response_of : Fetch → Endpoint → Outcome Response
response_of f metrics = value (metrics_response f.scopes f.method)
response_of f mcp = mcp_response f (batch f)

-- The `catch` of `fetch`.
abbrev pub failure : Fetch → Response
failure f = if f.healthy then respond 500 failed else respond 503 failed

-- The record of the response is written before the response is returned.
abbrev pub recorded : Fetch → Outcome Response → Response
recorded f (raised e) = failure f
recorded f (value r) = if f.accepts r.status then r else failure f

unfoldable pub fetch : Fetch → Response
unfolding response_of
fetch f = recorded f (response_of f f.endpoint)
