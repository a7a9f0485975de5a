-- ===== src/Runtime/Invoke.antt =====
-- What `SecureRuntime.invoke` guarantees: when a handler runs, and what the caller is answered.
use secure_mcp.Shared.{
  ℕ, String, ◌≡◌, refl, sym, ap, ◌∙◌, Bool, true, false, Option, List, [], ◌∷◌, ◌++◌, arith, leb,
  if◌then◌else◌, subst,
}
use secure_mcp.Errors.{text_of, failure_code, Outcome, value, raised}
use secure_mcp.Policy.{Principal, ToolPolicy, PolicyOptions}
use secure_mcp.Input.{within_input_element_limit}
use secure_mcp.Execution.{refused, admitted, run, Admission}
use secure_mcp.Runtime.{
  is_audit_loss, report, find, invoke, Reply, conclude, Limits, CallToolResult, Act, recorded, ran,
  World, operation, attempt, permitted,
}

abbrev pub has_ran : List Act → Bool
has_ran [] = false
has_ran (ran ∷ acts) = true
has_ran (recorded o ∷ acts) = has_ran acts

-- The audit records that stand before the first call of a handler.
abbrev pub records_before : List Act → List String
records_before [] = []
records_before (ran ∷ acts) = []
records_before (recorded o ∷ acts) = o ∷ records_before acts

-- What the operation has passed when it calls the handler.
pub record Entered (w : World) (acts : List Act) : Type 0 where
  pub valid : w.parse ≡ value true
  pub acknowledged : w.accepts "allowed" ≡ true
  pub live : (w.aborted_at 0 ≡ false) × (w.aborted_at 1 ≡ false) × (w.aborted_at 2 ≡ false)
  pub announced : records_before acts ≡ "allowed" ∷ []

operation-Entered :
    (limits : Limits) (w : World)
    → has_ran (operation limits w []).1 ≡ true
    → Entered w (operation limits w []).1
unfolding operation
operation-Entered limits w h = record {
  valid = ground arith;
  acknowledged = ground arith;
  live = ground arith;
  announced = ground arith;
}

records_before-append :
    (xs ys : List Act) → has_ran xs ≡ true → records_before (xs ++ ys) ≡ records_before xs
records_before-append [] ys h = absurd (cc)
records_before-append (ran ∷ xs) ys h = refl
records_before-append (recorded o ∷ xs) ys h = ap (λ os. o ∷ os) (records_before-append xs ys h)

has_ran_snoc : (xs : List Act) (o : String) → has_ran (xs ++ recorded o ∷ []) ≡ has_ran xs
has_ran_snoc [] o = refl
has_ran_snoc (ran ∷ xs) o = refl
has_ran_snoc (recorded p ∷ xs) o = has_ran_snoc xs o

-- The report of a failure adds at most one record at the end.
Entered-snoc :
    (w : World) (xs : List Act) (o : String)
    → has_ran (xs ++ recorded o ∷ []) ≡ true
    → (has_ran xs ≡ true → Entered w xs)
    → Entered w (xs ++ recorded o ∷ [])
Entered-snoc w xs o h entered =
    let r = sym (has_ran_snoc xs o) ∙ h in
    let e = entered r in
    record {
      valid = e.valid;
      acknowledged = e.acknowledged;
      live = e.live;
      announced = records_before-append xs (recorded o ∷ []) r ∙ e.announced;
    }

abbrev pub fits : ℕ → Outcome ℕ → Bool
fits maximum (value bytes) = leb bytes maximum
fits maximum (raised _) = false

abbrev pub is_admitted : Admission CallToolResult → Bool
is_admitted (refused _) = false
is_admitted (admitted _) = true

-- What a call has passed when its handler runs.
pub record Cleared (limits : Limits) (w : World) (policy : PolicyOptions) (principal : Principal)
    (tool : Option ToolPolicy) : Type 0 where
  pub authorised : permitted w policy principal tool ≡ true
  pub bounded_elements : within_input_element_limit w.heap w.args limits.max_input_elements ≡ true
  pub bounded_bytes : fits limits.max_input_bytes w.input_bytes ≡ true
  pub started : is_admitted (run w.caller_aborted w.controller) ≡ true

attempt-Cleared :
    (limits : Limits) (w : World) (policy : PolicyOptions) (principal : Principal)
    (tool : Option ToolPolicy)
    → has_ran (attempt limits w policy principal tool []).1 ≡ true
    → Cleared limits w policy principal tool
unfolding attempt
attempt-Cleared limits w policy principal tool h = record {
  authorised = ground arith;
  bounded_elements = ground arith;
  bounded_bytes = ground arith;
  started = ground arith;
}

attempt-operation :
    (limits : Limits) (w : World) (policy : PolicyOptions) (principal : Principal)
    (tool : Option ToolPolicy)
    → has_ran (attempt limits w policy principal tool []).1 ≡ true
    → (attempt limits w policy principal tool []).1 ≡ (operation limits w []).1
unfolding attempt
attempt-operation limits w policy principal tool h = ground arith

attempt-Entered :
    (limits : Limits) (w : World) (policy : PolicyOptions) (principal : Principal)
    (tool : Option ToolPolicy)
    → has_ran (attempt limits w policy principal tool []).1 ≡ true
    → Entered w (attempt limits w policy principal tool []).1
attempt-Entered limits w policy principal tool h =
    let e = attempt-operation limits w policy principal tool h in
    subst (Entered w) (sym e) (operation-Entered limits w (ap has_ran (sym e) ∙ h))

if_acts :
    (b : Bool) (P : List Act → Type 0) (x y : Reply)
    → P x.acts
    → P y.acts
    → P (if b then x else y).acts
if_acts true P x y p q = p
if_acts false P x y p q = q

-- `conclude` leaves the acts alone or adds one record at the end.
conclude_acts :
    (w : World) (o : Outcome CallToolResult) (xs : List Act) (P : List Act → Type 0)
    → P xs
    → ((o : String) → P (xs ++ recorded o ∷ []))
    → P (conclude w (o, xs)).acts
unfolding conclude report
conclude_acts w (value r) xs P p q = p
conclude_acts w (raised e) xs P p q =
    if_acts (is_audit_loss (failure_code e)) P _ _ p
      (if_acts (w.accepts (text_of (failure_code e))) P _ _ (q _) (q _))

-- When the handler runs, the registry holds a tool of that name, the policy allows the principal to
-- call it at that time, the arguments are within both input limits, and the execution controller
-- has admitted the call; the arguments fit the tool's schema, the bounded signal had not aborted
-- at any check before the handler, and before the handler the audit was given exactly the record
-- "allowed" and acknowledged it.
pub invoke_ran :
    (limits : Limits) (w : World) (policy : PolicyOptions) (principal : Principal)
    (registry : List ToolPolicy) (name : String)
    → has_ran (invoke limits w policy principal registry name).acts ≡ true
    → Cleared limits w policy principal (find registry name)
      × Entered w (invoke limits w policy principal registry name).acts
unfolding invoke
invoke_ran limits w policy principal registry name =
    let tool = find registry name in
    let attempted = attempt limits w policy principal tool [] in
    conclude_acts w attempted.0 attempted.1
      (λ xs. has_ran xs ≡ true → Cleared limits w policy principal tool × Entered w xs)
      (λ h. (
        attempt-Cleared limits w policy principal tool h,
        attempt-Entered limits w policy principal tool h,
      ))
      (λ o h.
        let r = sym (has_ran_snoc attempted.1 o) ∙ h in
        (
          attempt-Cleared limits w policy principal tool r,
          Entered-snoc w attempted.1 o h (attempt-Entered limits w policy principal tool),
        ))
