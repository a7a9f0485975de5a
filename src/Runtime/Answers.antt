-- ===== src/Runtime/Answers.antt =====
-- What the caller of `SecureRuntime.invoke` is answered, and what is then on record.
use secure_mcp.Shared.{
  ℕ, ◌+◌, String, ◌≡◌, refl, sym, ap, ◌∙◌, ◌⊎◌, inl, inr, Bool, true, false, Option, none, List, [],
  ◌∷◌, ◌++◌, arith, str_eq, eq_iff, leb, if◌then◌else◌, subst,
}
use secure_mcp.Errors.{
  FailureCode, denied, audit_unavailable, text_of, runtime_failure, failure_code, Outcome, value,
  raised,
}
use secure_mcp.Policy.{Principal, ToolPolicy, PolicyOptions}
use secure_mcp.Runtime.{
  Limits, CallToolResult, Act, recorded, ran, World, operation, attempt, find, permitted, Reply,
  failure_result, report, conclude, invoke, outcome_of, is_audit_loss, count, count_of,
}
use secure_mcp.Runtime.Invoke.{has_ran}

-- Whether the last act is the given record.
abbrev pub ends_with : String → List Act → Bool
ends_with o [] = false
ends_with o (recorded p ∷ []) = str_eq p o
ends_with o (ran ∷ []) = false
ends_with o (_ ∷ a ∷ acts) = ends_with o (a ∷ acts)

-- The operation's result is handed to the caller.
pub record Delivered (limits : Limits) (w : World) (reply : Reply) : Type 0 where
  pub handled : w.handler ≡ value reply.answer
  pub small : leb (w.json_bytes reply.answer) limits.max_output_bytes ≡ true
  pub uninterrupted : w.interruption ≡ none
  pub called : has_ran reply.acts ≡ true

-- A failure code and nothing else is handed to the caller.
pub record Failed (reply : Reply) : Type 0 where
  pub code : FailureCode
  pub answered : reply.answer ≡ failure_result code
  pub counted : reply.outcome ≡ text_of code

attempt_value :
    (limits : Limits) (w : World) (policy : PolicyOptions) (principal : Principal)
    (tool : Option ToolPolicy) (r : CallToolResult)
    → (attempt limits w policy principal tool []).0 ≡ value r
    → (w.handler ≡ value r)
      × (leb (w.json_bytes r) limits.max_output_bytes ≡ true)
      × (w.interruption ≡ none)
      × ((attempt limits w policy principal tool []).1
          ≡ recorded "allowed" ∷ ran ∷ recorded (outcome_of r) ∷ [])
      × (w.accepts (outcome_of r) ≡ true)
unfolding attempt operation
attempt_value limits w policy principal tool r h =
    (ground arith, ground arith, ground arith, ground arith, ground arith)

attempt_denied :
    (limits : Limits) (w : World) (policy : PolicyOptions) (principal : Principal)
    (tool : Option ToolPolicy)
    → permitted w policy principal tool ≡ false
    → attempt limits w policy principal tool [] ≡ (raised (runtime_failure denied), [])
unfolding attempt
attempt_denied limits w policy principal tool h = ground arith

conclude_denied :
    (w : World)
    → ((conclude w (raised (runtime_failure denied), [])).acts ≡ recorded "denied" ∷ [])
      × ((conclude w (raised (runtime_failure denied), [])).answer
          ≡ failure_result (if w.accepts "denied" then denied else audit_unavailable))
unfolding conclude report failure_code text_of
conclude_denied w = (ground arith, ground arith)

-- A call that the policy does not allow, or of a tool that is not registered, has one effect, the
-- record "denied", and is answered "denied", or "audit_unavailable" if the audit does not
-- acknowledge that record.
pub invoke_denied :
    (limits : Limits) (w : World) (policy : PolicyOptions) (principal : Principal)
    (registry : List ToolPolicy) (name : String)
    → permitted w policy principal (find registry name) ≡ false
    → ((invoke limits w policy principal registry name).acts ≡ recorded "denied" ∷ [])
      × ((invoke limits w policy principal registry name).answer
          ≡ failure_result (if w.accepts "denied" then denied else audit_unavailable))
unfolding invoke
invoke_denied limits w policy principal registry name h =
    let e = attempt_denied limits w policy principal (find registry name) h in
    subst
      (λ a.
        ((conclude w a).acts ≡ recorded "denied" ∷ [])
        × ((conclude w a).answer
            ≡ failure_result (if w.accepts "denied" then denied else audit_unavailable)))
      (sym e) (conclude_denied w)

-- What is on record once the reply is given.
pub data Accounted (w : World) (reply : Reply) : Type 0 where
  acknowledged :
      reply.on_record ≡ true
      → ends_with reply.outcome reply.acts ≡ true
      → w.accepts reply.outcome ≡ true
      → Accounted w reply
  lost :
      reply.on_record ≡ false → reply.answer ≡ failure_result audit_unavailable → Accounted w reply

ends_with_snoc : (acts : List Act) (o : String) → ends_with o (acts ++ recorded o ∷ []) ≡ true
ends_with_snoc [] o = (eq_iff o o).1 refl
ends_with_snoc (ran ∷ []) o = (eq_iff o o).1 refl
ends_with_snoc (recorded p ∷ []) o = (eq_iff o o).1 refl
ends_with_snoc (ran ∷ a ∷ acts) o = ends_with_snoc (a ∷ acts) o
ends_with_snoc (recorded p ∷ a ∷ acts) o = ends_with_snoc (a ∷ acts) o

if_reply :
    (b : Bool) (P : Reply → Type 0) (x y : Reply)
    → (b ≡ true → P x)
    → (b ≡ false → P y)
    → P (if b then x else y)
if_reply true P x y p q = p refl
if_reply false P x y p q = q refl

is_audit_loss_lem : (code : FailureCode) → is_audit_loss code ≡ true → code ≡ audit_unavailable
is_audit_loss_lem audit_unavailable h = refl
is_audit_loss_lem _ h = absurd (cc)

report-Accounted :
    (w : World) (code : FailureCode) (acts : List Act) → Accounted w (report w code acts)
unfolding report
report-Accounted w code acts =
    if_reply (is_audit_loss code) (Accounted w) _ _
      (λ h. lost refl (ap failure_result (is_audit_loss_lem code h)))
      (λ _.
        if_reply (w.accepts (text_of code)) (Accounted w) _ _
          (λ h. acknowledged refl (ends_with_snoc acts (text_of code)) h) (λ _. lost refl refl))

report-Failed : (w : World) (code : FailureCode) (acts : List Act) → Failed (report w code acts)
unfolding report
report-Failed w code acts =
    if_reply (is_audit_loss code) Failed _ _
      (λ _. record { code = code; answered = refl; counted = refl })
      (λ _.
        if_reply (w.accepts (text_of code)) Failed _ _
          (λ _. record { code = code; answered = refl; counted = refl })
          (λ _. record { code = audit_unavailable; answered = refl; counted = refl }))

conclude_cases :
    (limits : Limits) (w : World) (policy : PolicyOptions) (principal : Principal)
    (tool : Option ToolPolicy) (o : Outcome CallToolResult)
    → (attempt limits w policy principal tool []).0 ≡ o
    → let reply = conclude w (o, (attempt limits w policy principal tool []).1) in
      (Delivered limits w reply ⊎ Failed reply) × Accounted w reply
unfolding conclude
conclude_cases limits w policy principal tool (raised e) h =
    (inr (report-Failed w (failure_code e) _), report-Accounted w (failure_code e) _)
conclude_cases limits w policy principal tool (value r) h =
    let (handled, small, uninterrupted, acts, accepted) =
      attempt_value limits w policy principal tool r h in
    (
      inl (record {
        handled = handled;
        small = small;
        uninterrupted = uninterrupted;
        called = ap has_ran acts;
      }),
      acknowledged refl
          (ap (ends_with (outcome_of r)) acts ∙ (eq_iff (outcome_of r) (outcome_of r)).1 refl)
          accepted,
    )

-- The caller is answered with the handler's own result, which is then within the output limit, of
-- a handler that ran and a call that no abort interrupted; or with a failure code as the only
-- text, which is also the outcome that is counted. If the outcome is on record, its record is the
-- last act, where all that an interrupted operation still does is listed before it, and the audit
-- acknowledged it; if it is not, the answer is audit_unavailable.
pub invoke_answer :
    (limits : Limits) (w : World) (policy : PolicyOptions) (principal : Principal)
    (registry : List ToolPolicy) (name : String)
    → let reply = invoke limits w policy principal registry name in
      (Delivered limits w reply ⊎ Failed reply) × Accounted w reply
unfolding invoke
invoke_answer limits w policy principal registry name =
    conclude_cases limits w policy principal (find registry name) _ refl

-- A call raises the counter of its own outcome by one and leaves every other counter alone.
pub count_of-count :
    (outcome other : String) (counts : List (String × ℕ))
    → count_of other (count outcome counts)
      ≡ (if str_eq outcome other then 1 else 0) + count_of other counts
unfolding count count_of
count_of-count outcome other [] = omega arith
count_of-count outcome other ((o, n) ∷ rest) =
    let h = count_of-count outcome other rest in
    ground (arith, h, eq_iff o outcome, eq_iff o other, eq_iff outcome other)
