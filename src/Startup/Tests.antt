-- ===== src/Startup/Tests.antt =====
-- A host whose configuration file is missing, a process that stops well, and the laws at these.
use secure_mcp.Shared.{◌≡◌, refl, inl, inr, true, false, none, some, List, [], ◌∷◌, codes}
use secure_mcp.Startup.NodeVersion.{assert_supported_node}
use secure_mcp.Startup.Diagnostics.{
  ZodIssue, key, index, unrecognized_keys, invalid_type, enoent, config, configuration_diagnostic,
  filesystem_diagnostic,
}
use secure_mcp.Startup.Cli.{
  reported, ◌>>=◌, Options, invalid, Host, stdio, accepted, diagnostic, serving, main,
  bad_arguments,
}
use secure_mcp.Startup.Cli.Reported.{IsLine, main-reported}
use secure_mcp.Startup.Cli.Stopping.{
  Event, stop_called, protocol_error, close_done, forced, steps, started,
}

node_versions :
    (assert_supported_node (codes "24.22.1") ≡ true)
    × (assert_supported_node (codes "24.30.0") ≡ true)
    × (assert_supported_node (codes "24.22.0") ≡ false)
    × (assert_supported_node (codes "25.0.0") ≡ false)
    × (assert_supported_node (codes "24.022.1") ≡ false)
    × (assert_supported_node (codes "24.22.1-rc") ≡ false)
unfolding assert_supported_node
node_versions = (refl, refl, refl, refl, refl, refl)

abbrev issues : List ZodIssue
issues =
    record { path = key "http" ∷ key "port" ∷ []; code = invalid_type }
    ∷ record { path = key "pass\nword" ∷ []; code = unrecognized_keys }
    ∷ record { path = key "http" ∷ index 3 ∷ key "port" ∷ []; code = invalid_type }
    ∷ []

diagnostics :
    (configuration_diagnostic issues
      ≡ "http.port: has the wrong type or is missing a required value; config: contains an unknown setting; check the supported field names")
    × (configuration_diagnostic [] ≡ "config: invalid configuration")
    × (filesystem_diagnostic config enoent ≡ "config: does not exist; check the selected path")
unfolding configuration_diagnostic filesystem_diagnostic
diagnostics = (refl, refl, refl)

abbrev options : Options
options = record {
  config_file = some "c.json";
  workspace_dir = none;
  doctor = false;
  help = false;
  version = false;
}

abbrev host : Host Unit
host = record {
  node_version = codes "24.22.1";
  arguments = some options;
  empty_config = tt;
  read_file = λ _. inl enoent;
  parse_json = λ _. invalid;
  resolve = λ path. path;
  resolve_beside = λ _ path. path;
  parse_config = λ _. accepted (record {
    allowed_tools = "policy_status" ∷ [];
    workspace_path = "/w";
    has_api = false;
    transport = stdio;
  });
  open_directory = λ _. none;
  create_runtime = true;
  listen = none;
}

starts :
    (main host ≡ inl (diagnostic "config: does not exist; check the selected path"))
    × (main (record host { arguments = none }) ≡ inl (diagnostic bad_arguments))
    × (main (record host { arguments = some (record options { config_file = some "" }) })
        ≡ inr (serving stdio))
unfolding main ◌>>=◌ assert_supported_node filesystem_diagnostic
starts = (refl, refl, refl)

main-reported_example :
    let failure = diagnostic "config: does not exist; check the selected path" in
    IsLine "old" (reported "old" failure).0 × ((reported "old" failure).1 ≡ 1)
main-reported_example =
    main-reported host "old" (diagnostic "config: does not exist; check the selected path") starts.0

abbrev good_end : List Event
good_end = stop_called ∷ close_done 0 true ∷ protocol_error ∷ []

ends :
    ((steps started good_end).exited ≡ some 0)
    × ((steps started (protocol_error ∷ good_end)).exited ≡ some 1)
    × ((steps started (close_done 0 true ∷ [])).exited ≡ none)
    × ((steps started (stop_called ∷ forced ∷ close_done 0 true ∷ [])).exited ≡ some 1)
unfolding steps started
ends = (refl, refl, refl, refl)
