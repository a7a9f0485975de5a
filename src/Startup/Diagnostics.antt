-- ===== src/Startup/Diagnostics.antt =====
-- src/startup-diagnostics.ts: the messages of a failed start.
pub mod Known
use secure_mcp.Shared.{
  ℕ, String, not, List, [], ◌∷◌, ◌++◌, str_eq, if◌then◌else◌, take, includes, is_empty,
}
use Prim.Native.String.{◌++◌ as ◌+++◌}

abbrev pub fields : List String
fields =
    "transport" ∷ "workspace" ∷ "allowedTools" ∷ "readOnly" ∷ "localScopes" ∷ "audit"
    ∷ "audit.socketPath" ∷ "audit.maxPending" ∷ "audit.timeoutMs" ∷ "limits"
    ∷ "limits.maxConcurrent" ∷ "limits.timeoutMs" ∷ "limits.maxInputBytes"
    ∷ "limits.maxInputElements" ∷ "limits.maxOutputBytes" ∷ "limits.shutdownMs" ∷ "http"
    ∷ "http.host" ∷ "http.port" ∷ "http.resource" ∷ "http.issuer" ∷ "http.jwksUrl"
    ∷ "http.allowedOrigins" ∷ "http.algorithms" ∷ "http.maxTokenAgeSeconds" ∷ "api" ∷ "api.url"
    ∷ "api.maxBytes" ∷ []

abbrev pub invalid_setting : String
invalid_setting = "invalid setting; check the configuration reference"

abbrev pub custom_reasons : List (String × String)
custom_reasons =
    ("HTTP requires at least three pending audit records", "must be at least 3 for HTTP admission")
    ∷ (
      "HTTP requires an external issuer, JWKS URL, and resource URL",
      "requires an HTTP configuration block with resource, issuer and jwksUrl",
    )
    ∷ ("Resource URL must end with /mcp", "resource URL path must be /mcp")
    ∷ (
      "Use HTTPS, or HTTP on loopback for a local lab; no credentials, query, or fragment",
      "use HTTPS (or loopback HTTP), without credentials, query or fragment",
    )
    ∷ []

-- `customReasons.get(message) ?? reason`
unfoldable pub look_up : List (String × String) → String → String
look_up [] message = invalid_setting
look_up ((m, r) ∷ rest) message = if str_eq m message then r else look_up rest message

-- A member of an issue's path; the codes of issues that the switch tells apart.
pub data Part : Type 0 where
  key : String → Part
  index : ℕ → Part

pub data Code : Type 0 where
  unrecognized_keys invalid_type invalid_value too_small too_big invalid_format other : Code
  custom : String → Code

pub record ZodIssue : Type 0 where
  pub path : List Part
  pub code : Code

abbrev pub keys : List Part → List String
keys [] = []
keys (key k ∷ parts) = k ∷ keys parts
keys (index n ∷ parts) = keys parts

-- `texts.join(separator)`
abbrev pub joined : String → List String → String
joined separator [] = ""
joined separator (t ∷ []) = t
joined separator (t ∷ u ∷ ts) = t +++ (separator +++ joined separator (u ∷ ts))

abbrev pub field_of : List Part → String
field_of parts =
    let path = joined "." (keys parts) in if includes fields path then path else "config"

unfoldable pub reason_of : Code → String
unfolding look_up
reason_of unrecognized_keys = "contains an unknown setting; check the supported field names"
reason_of invalid_type = "has the wrong type or is missing a required value"
reason_of invalid_value = "must use a documented supported option"
reason_of too_small = "is outside the supported size or numeric range"
reason_of too_big = "is outside the supported size or numeric range"
reason_of invalid_format = "has an invalid format; check the configuration reference"
reason_of other = invalid_setting
reason_of (custom message) = look_up custom_reasons message

abbrev pub message_of : ZodIssue → String
message_of issue = field_of issue.path +++ (": " +++ reason_of issue.code)

-- `messages.add(…)` for each issue in turn, on a `Set` in the order of insertion.
unfoldable pub add_messages : List String → List ZodIssue → List String
unfolding reason_of
add_messages seen [] = seen
add_messages seen (i ∷ issues) =
    let more = add_messages (seen ++ message_of i ∷ []) issues in
    let same = add_messages seen issues in if includes seen (message_of i) then same else more

abbrev pub or_else : String → String → String
or_else text fallback = if is_empty text then fallback else text

unfoldable pub configuration_diagnostic : List ZodIssue → String
unfolding add_messages
configuration_diagnostic issues =
    or_else (joined "; " (add_messages [] (take 8 issues))) "config: invalid configuration"

pub data Area : Type 0 where
  config workspace : Area

abbrev pub area_text : Area → String
area_text config = "config"
area_text workspace = "workspace"

-- `error?.code`
pub data Errno : Type 0 where
  enoent eacces eperm enotdir eisdir eaddrinuse unknown : Errno

abbrev pub filesystem_reason : Area → Errno → String
filesystem_reason area enoent = "does not exist; check the selected path"
filesystem_reason area eacces = "is not accessible; check directory and file permissions"
filesystem_reason area eperm = "is not accessible; check directory and file permissions"
filesystem_reason config enotdir =
    "has a parent component that is not a directory; check the selected path"
filesystem_reason workspace enotdir = "requires a directory; check the selected path"
filesystem_reason area eisdir = "must be a readable JSON file, not a directory"
filesystem_reason area _ = "could not be opened; check the selected path and permissions"

unfoldable pub filesystem_diagnostic : Area → Errno → String
filesystem_diagnostic area code = area_text area +++ (": " +++ filesystem_reason area code)
