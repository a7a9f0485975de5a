-- ===== src/Startup/Cli/Reported.antt =====
-- What a failed start reports.
use secure_mcp.Shared.{
  String, ◌≡◌, refl, sym, ◌⊎◌, inl, inr, Bool, true, false, Option, none, some, List, [], ◌∷◌,
  if◌then◌else◌, In, includes, subst,
}
use secure_mcp.Startup.NodeVersion.{assert_supported_node}
use secure_mcp.Startup.Diagnostics.{
  Area, config, workspace, Errno, filesystem_diagnostic, joined, or_else, eaddrinuse, eacces, eperm,
}
use secure_mcp.Startup.Diagnostics.Known.{Listed, configuration_diagnostic-Listed}
use Prim.Native.String.{◌++◌ as ◌+++◌}
use secure_mcp.Startup.Cli.{
  reported, ◌>>=◌, Options, Setting, Json, invalid, no_object, json_object, Transport, stdio, http,
  Parsed, Validation, accepted, refused, threw, Host, Failure, diagnostic, unsupported, unexpected,
  Started, Step, ensure, given, from_json, from_file, read_config, validated, is_absent, opened,
  check_workspace, listening, served, configured, with_options, main, no_permission, bad_arguments,
  unavailable_tool, no_workspace,
}

abbrev pub fixed_texts : List String
fixed_texts =
    bad_arguments ∷ unavailable_tool ∷ no_workspace ∷ no_permission
    ∷ "config: invalid JSON; check syntax in the selected file" ∷ "config: must be a JSON object"
    ∷ "config: could not validate configuration"
    ∷ "http.port: listener address is already in use; choose a free port"
    ∷ "http: listener startup failed; check bind address and port availability" ∷ []

-- A text that depends on nothing that the operator wrote.
pub data IsSafe : Failure → Type 0 where
  fixed : (text : String) → In text fixed_texts → IsSafe (diagnostic text)
  filesystem : (area : Area) (code : Errno) → IsSafe (diagnostic (filesystem_diagnostic area code))
  configuration :
      (ms : List String) (text : String)
      → Listed 8 ms
      → text ≡ or_else (joined "; " ms) "config: invalid configuration"
      → IsSafe (diagnostic text)
  node_version : IsSafe unsupported
  generic : IsSafe unexpected

-- A step whose failure is safe.
data FailsSafely {A : Type 0} : Step A → Type 0 where
  fails : (e : Failure) → IsSafe e → FailsSafely (inl e)
  goes : (a : A) → FailsSafely (inr a)

bind-FailsSafely :
    {A B : Type 0} (m : Step A) (f : A → Step B)
    → FailsSafely m
    → ((a : A) → FailsSafely (f a))
    → FailsSafely (m >>= f)
unfolding ◌>>=◌
bind-FailsSafely (inl e) f (fails _ h) k = fails e h
bind-FailsSafely (inr a) f h k = k a

FailsSafely_failure : {A : Type 0} (e : Failure) → FailsSafely {A = A} (inl e) → IsSafe e
FailsSafely_failure e (fails _ s) = s

if-FailsSafely :
    {A : Type 0} (b : Bool) (x y : Step A)
    → FailsSafely x
    → FailsSafely y
    → FailsSafely (if b then x else y)
if-FailsSafely true x y h k = h
if-FailsSafely false x y h k = k

ensure-FailsSafely : (b : Bool) (e : Failure) → IsSafe e → FailsSafely (ensure b e)
ensure-FailsSafely true e s = goes _
ensure-FailsSafely false e s = fails e s

validated-FailsSafely : (v : Validation) → FailsSafely (validated v)
validated-FailsSafely (accepted p) = goes _
validated-FailsSafely (refused issues) =
    let (ms, l, e) = configuration_diagnostic-Listed issues in fails _ (configuration ms _ l e)
validated-FailsSafely threw = fails _ (fixed _ (inr (inr (inr (inr (inr (inr (inl refl))))))))

opened-FailsSafely : (o : Option Errno) → FailsSafely (opened o)
opened-FailsSafely none = goes _
opened-FailsSafely (some e) = fails _ (filesystem workspace e)

listening-IsSafe : (e : Errno) → IsSafe (diagnostic (listening e))
listening-IsSafe eaddrinuse = fixed _ (inr (inr (inr (inr (inr (inr (inr (inl refl))))))))
listening-IsSafe eacces = fixed _ (inr (inr (inr (inl refl))))
listening-IsSafe eperm = fixed _ (inr (inr (inr (inl refl))))
listening-IsSafe _ = fixed _ (inr (inr (inr (inr (inr (inr (inr (inr (inl refl)))))))))

module _ {R : Type 0} (h : Host R) where
  from_json-FailsSafely : (file : String) (j : Json R) → FailsSafely (from_json h file j)
  from_json-FailsSafely file invalid = fails _ (fixed _ (inr (inr (inr (inr (inl refl))))))
  from_json-FailsSafely file no_object = fails _ (fixed _ (inr (inr (inr (inr (inr (inl refl)))))))
  from_json-FailsSafely file (json_object raw) = goes _

  from_file-FailsSafely : (file : String) (r : Errno ⊎ String) → FailsSafely (from_file h file r)
  from_file-FailsSafely file (inl e) = fails _ (filesystem config e)
  from_file-FailsSafely file (inr contents) = from_json-FailsSafely file (h.parse_json contents)

  read_config-FailsSafely : (o : Option String) → FailsSafely (read_config h o)
  read_config-FailsSafely none = goes _
  read_config-FailsSafely (some file) = from_file-FailsSafely file (h.read_file file)

  check_workspace-FailsSafely : (s : Setting) (p : Parsed) → FailsSafely (check_workspace h s p)
  check_workspace-FailsSafely s p =
      if-FailsSafely (includes p.allowed_tools "documents_read") _ _
        (if-FailsSafely (is_absent s) _ _ (fails _ (fixed _ (inr (inr (inl refl)))))
          (opened-FailsSafely (h.open_directory p.workspace_path)))
        (goes tt)

  listen-FailsSafely :
      (o : Option Errno)
      → FailsSafely
          (elim o [ none ↦ inr (Started.serving http) | some e ↦ inl (diagnostic (listening e)) ])
  listen-FailsSafely none = goes _
  listen-FailsSafely (some e) = fails _ (listening-IsSafe e)

  served-FailsSafely : (t : Transport) → FailsSafely (served h t)
  served-FailsSafely stdio = goes _
  served-FailsSafely http = listen-FailsSafely h.listen

  configured-FailsSafely : (values : Options) → FailsSafely (configured h values)
  unfolding configured
  configured-FailsSafely values =
      bind-FailsSafely _ _ (read_config-FailsSafely (given values.config_file)) λ raw.
        bind-FailsSafely _ _ (validated-FailsSafely _) λ p.
          bind-FailsSafely _ _ (check_workspace-FailsSafely _ p) λ _.
            bind-FailsSafely _ _ (ensure-FailsSafely _ _ (fixed _ (inr (inl refl)))) λ _.
              bind-FailsSafely _ _ (ensure-FailsSafely h.create_runtime _ generic)
                λ _. if-FailsSafely values.doctor _ _ (goes _) (served-FailsSafely p.transport)

  with_options-FailsSafely : (o : Option Options) → FailsSafely (with_options h o)
  with_options-FailsSafely none = fails _ (fixed _ (inl refl))
  with_options-FailsSafely (some values) =
      if-FailsSafely values.help _ _ (goes _)
        (if-FailsSafely values.version _ _ (goes _) (configured-FailsSafely values))

  main-IsSafe : (e : Failure) → main h ≡ inl e → IsSafe e
  unfolding main
  main-IsSafe e k =
      let safe : FailsSafely (main h) =
        bind-FailsSafely _ _
          (ensure-FailsSafely (assert_supported_node h.node_version) _ node_version)
          (λ _. with_options-FailsSafely h.arguments) in
      FailsSafely_failure e (subst FailsSafely k safe)

-- What may stand on stderr after `secure-mcp: `.
pub data IsKnown (unsupported_text : String) : String → Type 0 where
  fixed_text : (text : String) → In text fixed_texts → IsKnown unsupported_text text
  file_text :
      (area : Area) (code : Errno) → IsKnown unsupported_text (filesystem_diagnostic area code)
  configuration_text :
      (ms : List String)
      → Listed 8 ms
      → IsKnown unsupported_text (or_else (joined "; " ms) "config: invalid configuration")
  version_text : IsKnown unsupported_text unsupported_text
  generic_text :
      IsKnown unsupported_text
        "startup failed; check configuration, workspace access, and listener availability"

-- One line with a known text.
abbrev pub IsLine : String → String → Type 0
IsLine unsupported_text output =
    (text : String) × IsKnown unsupported_text text × (output ≡ "secure-mcp: " +++ (text +++ "\n"))

reported-IsLine :
    (unsupported_text : String) (e : Failure)
    → IsSafe e
    → IsLine unsupported_text (reported unsupported_text e).0
      × ((reported unsupported_text e).1 ≡ 1)
unfolding reported
reported-IsLine u _ (fixed text i) = ((text, fixed_text text i, refl), refl)
reported-IsLine u _ (filesystem area code) = ((_, file_text area code, refl), refl)
reported-IsLine u _ (configuration ms text l same_text) =
    ((text, subst (IsKnown u) (sym same_text) (configuration_text ms l), refl), refl)
reported-IsLine u _ node_version = ((u, version_text, refl), refl)
reported-IsLine u _ generic = ((_, generic_text, refl), refl)

-- If the start fails, then one line is written to stderr and the exit code is 1. After `secure-mcp: ` the
-- line has one of nine fixed texts, a fixed text about a file by the kind of its error, a message of known
-- parts about the configuration, the text about the Node version, or the generic text; of the
-- configuration's values and of an error's own message nothing is shown.
pub main-reported :
    {R : Type 0} (h : Host R) (unsupported_text : String) (e : Failure)
    → main h ≡ inl e
    → IsLine unsupported_text (reported unsupported_text e).0
      × ((reported unsupported_text e).1 ≡ 1)
main-reported h u e k = reported-IsLine u e (main-IsSafe h e k)
