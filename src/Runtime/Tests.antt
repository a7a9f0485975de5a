-- ===== src/Runtime/Tests.antt =====
-- A call with and without the scope that its tool asks for, and the laws at these.
use secure_mcp.Shared.{◌≡◌, refl, ap, ◌⊎◌, true, false, none, some, [], ◌∷◌, map, all, includes}
use secure_mcp.Errors.{denied, cancelled, runtime_failure, value}
use secure_mcp.Policy.{Principal, ToolPolicy, PolicyOptions, may_invoke}
use secure_mcp.Input.{object, within_input_element_limit}
use secure_mcp.Execution.{initial, run}
use secure_mcp.Runtime.{
  Limits, CallToolResult, recorded, ran, World, find, permitted, failure_result, invoke, attempt,
  operation, conclude,
}
use secure_mcp.Runtime.Invoke.{has_ran, Cleared, Entered, invoke_ran}
use secure_mcp.Runtime.Answers.{Delivered, Failed, Accounted, invoke_answer, invoke_denied}
use secure_mcp.Runtime.Registry.{has, register, register_all, create, visible_tools}
use secure_mcp.Runtime.Registry.Visible.{IsRegistry, create-visible_tools}

abbrev limits : Limits
limits = record { max_input_bytes = 100; max_input_elements = 10; max_output_bytes = 100 }

abbrev greeting : CallToolResult
greeting = record { content = "hello" ∷ []; is_error = false }

abbrev world : World
world = record {
  now_ms = 5;
  heap = λ _. record { is_array = false; reserved = false; entries = [] };
  args = object 0;
  input_bytes = value 2;
  controller = initial 4;
  caller_aborted = false;
  interruption = none;
  aborted_at = λ _. false;
  abort_reason = runtime_failure cancelled;
  parse = value true;
  accepts = λ _. true;
  handler = value greeting;
  json_bytes = λ _. 50;
}

abbrev policy : PolicyOptions
policy = record { allowed_tools = "greet" ∷ []; read_only = true }

abbrev caller : Principal
caller = record { subject = "u"; issuer = "i"; scopes = "greet:call" ∷ []; expires_at = none }

abbrev greet : ToolPolicy
greet = record { name = "greet"; required_scopes = "greet:call" ∷ []; read_only = true }

abbrev other : ToolPolicy
other = record { name = "other_1"; required_scopes = "x" ∷ []; read_only = true }

created : create policy (greet ∷ other ∷ []) ≡ some (greet ∷ other ∷ [])
unfolding create register_all register find
created = refl

refused_registries :
    (create policy (greet ∷ greet ∷ []) ≡ none)
    × (create policy (other ∷ []) ≡ none)
    × (register [] (record greet { name = "Greet" }) ≡ none)
    × (register [] (record greet { required_scopes = [] }) ≡ none)
unfolding create register_all register find
refused_registries = (refl, refl, refl, refl)

answered :
    (invoke limits world policy caller (greet ∷ []) "greet").acts
    ≡ recorded "allowed" ∷ ran ∷ recorded "success" ∷ []
unfolding invoke attempt operation find may_invoke within_input_element_limit run initial conclude
answered = refl

invoke_ran_example :
    Cleared limits world policy caller (find (greet ∷ []) "greet")
    × Entered world (invoke limits world policy caller (greet ∷ []) "greet").acts
invoke_ran_example =
    invoke_ran limits world policy caller (greet ∷ []) "greet" (ap has_ran answered)

invoke_answer_example :
    (Delivered limits world (invoke limits world policy caller (greet ∷ []) "greet")
      ⊎ Failed (invoke limits world policy caller (greet ∷ []) "greet"))
    × Accounted world (invoke limits world policy caller (greet ∷ []) "greet")
invoke_answer_example = invoke_answer limits world policy caller (greet ∷ []) "greet"

unpermitted : permitted world policy caller (find (greet ∷ []) "absent") ≡ false
unfolding find
unpermitted = refl

invoke_denied_example :
    ((invoke limits world policy caller (greet ∷ []) "absent").acts ≡ recorded "denied" ∷ [])
    × ((invoke limits world policy caller (greet ∷ []) "absent").answer ≡ failure_result denied)
invoke_denied_example = invoke_denied limits world policy caller (greet ∷ []) "absent" unpermitted

create-visible_tools_example :
    IsRegistry (greet ∷ other ∷ [])
    × (all (has (greet ∷ other ∷ [])) policy.allowed_tools ≡ true)
    × (includes
          (map (λ (t : ToolPolicy). t.name) (visible_tools 5 policy caller (greet ∷ other ∷ [])))
          "greet"
        ≡ permitted world policy caller (find (greet ∷ other ∷ []) "greet"))
create-visible_tools_example =
    create-visible_tools world policy caller (greet ∷ other ∷ []) (greet ∷ other ∷ []) "greet"
      created
