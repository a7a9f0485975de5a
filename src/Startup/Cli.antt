-- ===== src/Startup/Cli.antt =====
-- src/cli.ts: `main` as a ladder of steps that may fail, and the end of the process. What the steps
-- read (the arguments, files, the configuration schema, the listener) is a `Host`.
pub mod Reported
pub mod Stopping
pub mod Exit
use secure_mcp.Shared.{
  ℕ, zero, suc, ◌+◌, ◌-◌, ◌*◌, ◌/◌, ◌%◌, ◌≤◌, ◌<◌, min, max, String, ◌≡◌, refl, sym, ap, ◌∙◌, ◌≢◌,
  ◌↔◌, ◌⊎◌, inl, inr, Bool, true, false, not, ◌&&◌, ◌||◌, Option, none, some, List, [], ◌∷◌, ◌++◌,
  map, arith, str_eq, eq_iff, ltb, leb, ◌==◌, if◌then◌else◌, ltb→lt, lt→ltb, leb→le, le→leb, ==_iff,
  Bool-cases, Option-cases, Bool-eq_of_iff, and_intro, and_left, and_right, length, all, any, keep,
  length-append, length-keep-le, take, drop, get_elem?, All, All-append, all-All, All-all, All-mono,
  In, In-append, In-append_right, codes, bit_and_31, bit_or_byte, includes, includes_iff, is_empty,
  units, is_lower, is_upper, is_digit, is_alnum, modify_at, tally, tally-append, tally-modify_at-le,
  All-modify_at, All-get_elem?, take-add, take_all, take-append_drop, length-drop, take-append,
  take-nil, drop-nil, drop-add, append-nil, append_assoc, ap₂, subst, some-injective,
}
use Prim.Native.String.{◌++◌ as ◌+++◌}
use secure_mcp.Startup.NodeVersion.{assert_supported_node}
use secure_mcp.Startup.Diagnostics.{
  ZodIssue, config, workspace, Errno, eaddrinuse, eacces, eperm, configuration_diagnostic,
  filesystem_diagnostic,
}

pub record Options : Type 0 where
  pub config_file : Option String
  pub workspace_dir : Option String
  pub doctor : Bool
  pub help : Bool
  pub version : Bool

-- `config.workspace` before the schema is applied.
pub data Setting : Type 0 where
  absent other_type : Setting
  text : String → Setting

-- A configuration before the schema, by the setting that is read; `R` stands for the others.
pub record Raw (R : Type 0) : Type 0 where
  pub setting : Setting
  pub rest : R

-- `JSON.parse`: it throws, or gives an object or something else.
pub data Json (R : Type 0) : Type 0 where
  invalid no_object : Json R
  json_object : Raw R → Json R

pub data Transport : Type 0 where
  stdio http : Transport

pub record Parsed : Type 0 where
  pub allowed_tools : List String
  pub workspace_path : String
  pub has_api : Bool
  pub transport : Transport

pub data Validation : Type 0 where
  accepted : Parsed → Validation
  refused : List ZodIssue → Validation
  threw : Validation

-- What may go wrong: `none` is a call that works.
pub record Host (R : Type 0) : Type 0 where
  pub node_version : List ℕ
  pub arguments : Option Options
  pub empty_config : R
  pub read_file : String → Errno ⊎ String
  pub parse_json : String → Json R
  -- `resolve`, and `resolve(dirname(resolve(file)), path)`
  pub resolve : String → String
  pub resolve_beside : String → String → String
  pub parse_config : Raw R → Validation
  pub open_directory : String → Option Errno
  pub create_runtime : Bool
  pub listen : Option Errno

-- A throw: a diagnostic, an unsupported Node version, or anything else.
pub data Failure : Type 0 where
  diagnostic : String → Failure
  unsupported unexpected : Failure

pub data Started : Type 0 where
  printed_help printed_version printed_doctor : Started
  serving : Transport → Started

abbrev pub Step : Type 0 → Type 0
Step A = Failure ⊎ A

infixl 5 ◌>>=◌
unfoldable pub ◌>>=◌ : {A B : Type 0} → Step A → (A → Step B) → Step B
inl e >>= f = inl e
inr a >>= f = f a

infixl 5 ◌>>◌
abbrev pub ◌>>◌ : {B : Type 0} → Step (Unit {0}) → Step B → Step B
m >> k = m >>= λ _. k

abbrev pub ensure : Bool → Failure → Step (Unit {0})
ensure true e = inr tt
ensure false e = inl e

-- `if (values.config)`: an empty text counts as none.
abbrev pub given : Option String → Option String
given none = none
given (some t) = if is_empty t then none else some t

abbrev pub settled_beside : {R : Type 0} → Host R → String → Raw R → Raw R
settled_beside h file raw = elim raw.setting [
  | text t ↦ record raw { setting = text (h.resolve_beside file t) }
  | _ ↦ raw
]

abbrev pub from_json : {R : Type 0} → Host R → String → Json R → Step (Raw R)
from_json h file invalid =
    inl (diagnostic "config: invalid JSON; check syntax in the selected file")
from_json h file no_object = inl (diagnostic "config: must be a JSON object")
from_json h file (json_object raw) = inr (settled_beside h file raw)

abbrev pub from_file : {R : Type 0} → Host R → String → Errno ⊎ String → Step (Raw R)
from_file h file (inl e) = inl (diagnostic (filesystem_diagnostic config e))
from_file h file (inr contents) = from_json h file (h.parse_json contents)

abbrev pub read_config : {R : Type 0} → Host R → Option String → Step (Raw R)
read_config h none = inr (record { setting = absent; rest = h.empty_config })
read_config h (some file) = from_file h file (h.read_file file)

-- `if (values.workspace) config.workspace = resolve(values.workspace)`
abbrev pub with_workspace : {R : Type 0} → Host R → Option String → Raw R → Raw R
with_workspace h none raw = raw
with_workspace h (some dir) raw = record raw { setting = text (h.resolve dir) }

abbrev pub validated : Validation → Step Parsed
validated (accepted p) = inr p
validated (refused issues) = inl (diagnostic (configuration_diagnostic issues))
validated threw = inl (diagnostic "config: could not validate configuration")

abbrev pub is_absent : Setting → Bool
is_absent absent = true
is_absent _ = false

abbrev pub opened : Option Errno → Step (Unit {0})
opened none = inr tt
opened (some e) = inl (diagnostic (filesystem_diagnostic workspace e))

abbrev pub no_workspace : String
no_workspace = "workspace: choose an approved workspace with --workspace DIRECTORY or --config FILE"

-- The workspace of the document tool.
abbrev pub check_workspace : {R : Type 0} → Host R → Setting → Parsed → Step (Unit {0})
check_workspace h setting p =
    if includes p.allowed_tools "documents_read"
    then (if is_absent setting
        then inl (diagnostic no_workspace)
        else opened (h.open_directory p.workspace_path))
    else inr tt

abbrev pub available : Bool → List String
available has_api = "documents_read" ∷ "policy_status" ∷ (if has_api then "api_read" ∷ [] else [])

abbrev pub no_permission : String
no_permission =
    "http.port: permission denied when opening the listener; check host and port permissions"

abbrev pub listening : Errno → String
listening eaddrinuse = "http.port: listener address is already in use; choose a free port"
listening eacces = no_permission
listening eperm = no_permission
listening _ = "http: listener startup failed; check bind address and port availability"

abbrev pub served : {R : Type 0} → Host R → Transport → Step Started
served h stdio = inr (serving stdio)
served h http = elim h.listen [
  | none ↦ inr (serving http)
  | some e ↦ inl (diagnostic (listening e))
]

abbrev pub unavailable_tool : String
unavailable_tool =
    "allowedTools: contains an unavailable tool; check supported names and optional API configuration"

-- From the reading of the configuration on.
unfoldable pub configured : {R : Type 0} → Host R → Options → Step Started
configured h values = do
  raw ← read_config h (given values.config_file)
  p ← validated (h.parse_config (with_workspace h (given values.workspace_dir) raw))
  check_workspace h (with_workspace h (given values.workspace_dir) raw).setting p
  ensure (all (includes (available p.has_api)) p.allowed_tools) (diagnostic unavailable_tool)
  ensure h.create_runtime unexpected
  if values.doctor then inr printed_doctor else served h p.transport

abbrev pub bad_arguments : String
bad_arguments =
    "arguments: unknown option, unexpected argument or missing option value; run --help for usage"

abbrev pub with_options : {R : Type 0} → Host R → Option Options → Step Started
with_options h none = inl (diagnostic bad_arguments)
with_options h (some values) =
    if values.help
    then inr printed_help
    else if values.version
    then inr printed_version
    else configured h values

unfoldable pub main : {R : Type 0} → Host R → Step Started
unfolding configured
main h = do ensure (assert_supported_node h.node_version) unsupported; with_options h h.arguments

-- What `main().catch` does: the text that it writes to stderr, and `process.exitCode`. The text about
-- the Node version is `unsupported_text`.
unfoldable pub reported : String → Failure → String × ℕ
reported unsupported_text (diagnostic message) = ("secure-mcp: " +++ (message +++ "\n"), 1)
reported unsupported_text unsupported = ("secure-mcp: " +++ (unsupported_text +++ "\n"), 1)
reported unsupported_text unexpected = (
  "secure-mcp: startup failed; check configuration, workspace access, and listener availability\n",
  1,
)
