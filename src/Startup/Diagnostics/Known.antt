-- ===== src/Startup/Diagnostics/Known.antt =====
-- What the message of a refused configuration is made of.
use secure_mcp.Shared.{
  ℕ, zero, suc, ◌+◌, ◌≤◌, String, ◌≡◌, refl, inl, inr, Bool, true, false, List, [], ◌∷◌, ◌++◌, map,
  arith, str_eq, eq_iff, if◌then◌else◌, Bool-cases, length, length-append, take, All, All-append,
  In, includes, includes_iff,
}
use Prim.Native.String.{◌++◌ as ◌+++◌}
use secure_mcp.Startup.Diagnostics.{
  fields, invalid_setting, custom_reasons, look_up, ZodIssue, Code, unrecognized_keys, invalid_type,
  invalid_value, too_small, too_big, invalid_format, other, custom, joined, keys, field_of,
  reason_of, message_of, add_messages, or_else, configuration_diagnostic,
}

abbrev pub reasons : List String
reasons =
    "contains an unknown setting; check the supported field names"
    ∷ "has the wrong type or is missing a required value"
    ∷ "must use a documented supported option"
    ∷ "is outside the supported size or numeric range"
    ∷ "has an invalid format; check the configuration reference"
    ∷ invalid_setting
    ∷ map (λ (p : String × String). p.1) custom_reasons

-- A message that names a field of the schema and one of the fixed reasons.
pub record IsKnown (message : String) : Type 0 where
  pub field : String
  pub reason : String
  pub field_known : In field ("config" ∷ fields)
  pub reason_known : In reason reasons
  pub composed : message ≡ field +++ (": " +++ reason)

field_of-In :
    (path : String) → In (if includes fields path then path else "config") ("config" ∷ fields)
field_of-In path = elim (Bool-cases (includes fields path)) [
  | inl e ↦ simp e (inr ((includes_iff fields path).0 e))
  | inr e ↦ simp e (inl refl)
]

In_if :
    (b : Bool) (x y : String) (ts : List String) → In x ts → In y ts → In (if b then x else y) ts
In_if true x y ts p q = p
In_if false x y ts p q = q

In_later :
    (t u : String) (default : String) (ts : List String)
    → In t (default ∷ ts)
    → In t (default ∷ u ∷ ts)
In_later t u default ts (inl p) = inl p
In_later t u default ts (inr p) = inr (inr p)

look_up-In :
    (table : List (String × String)) (message : String)
    → In (look_up table message) (invalid_setting ∷ map (λ (p : String × String). p.1) table)
unfolding look_up
look_up-In [] message = inl refl
look_up-In ((m, r) ∷ rest) message =
    In_if (str_eq m message) r (look_up rest message)
      (invalid_setting ∷ map (λ (p : String × String). p.1) ((m, r) ∷ rest)) (inr (inl refl))
      (In_later (look_up rest message) r invalid_setting _ (look_up-In rest message))

reason_of-In : (code : Code) → In (reason_of code) reasons
unfolding reason_of
reason_of-In unrecognized_keys = inl refl
reason_of-In invalid_type = inr (inl refl)
reason_of-In invalid_value = inr (inr (inl refl))
reason_of-In too_small = inr (inr (inr (inl refl)))
reason_of-In too_big = inr (inr (inr (inl refl)))
reason_of-In invalid_format = inr (inr (inr (inr (inl refl))))
reason_of-In other = inr (inr (inr (inr (inr (inl refl)))))
reason_of-In (custom message) = inr (inr (inr (inr (inr (look_up-In custom_reasons message)))))

message_of-IsKnown : (i : ZodIssue) → IsKnown (message_of i)
message_of-IsKnown i = record {
  field = field_of i.path;
  reason = reason_of i.code;
  field_known = field_of-In (joined "." (keys i.path));
  reason_known = reason_of-In i.code;
  composed = refl;
}

-- No text stands twice.
abbrev pub NoRepeats : List String → Type 0
NoRepeats [] = Unit
NoRepeats (t ∷ ts) = (includes ts t ≡ false) × NoRepeats ts

includes-snoc :
    (ts : List String) (t u : String)
    → includes ts u ≡ false
    → str_eq t u ≡ false
    → includes (ts ++ t ∷ []) u ≡ false
includes-snoc [] t u h k = ground arith
includes-snoc (v ∷ ts) t u h k = let rest = includes-snoc ts t u in ground arith

NoRepeats-snoc :
    (ts : List String) (t : String)
    → NoRepeats ts
    → includes ts t ≡ false
    → NoRepeats (ts ++ t ∷ [])
NoRepeats-snoc [] t n h = (refl, tt)
NoRepeats-snoc (u ∷ ts) t (fresh, n) h = (
  includes-snoc ts t u fresh (ground (arith, eq_iff t u, eq_iff u t)),
  NoRepeats-snoc ts t n (ground arith),
)

-- The list of messages after some issues.
pub record Listed (n : ℕ) (ms : List String) : Type 0 where
  pub known : All IsKnown ms
  pub no_repeats : NoRepeats ms
  pub few : length ms ≤ n

add_messages-Listed :
    (seen : List String) (issues : List ZodIssue) (n : ℕ)
    → Listed n seen
    → Listed (length issues + n) (add_messages seen issues)
unfolding add_messages
add_messages-Listed seen [] n l = record {
  known = l.known;
  no_repeats = l.no_repeats;
  few = omega (arith, l.few);
}
add_messages-Listed seen (i ∷ issues) n l = elim (Bool-cases (includes seen (message_of i))) [
  | inl e ↦
      let rest = add_messages-Listed seen issues n l in
      simp e
        (record { known = rest.known; no_repeats = rest.no_repeats; few = omega (arith, rest.few) })
  | inr e ↦
      let longer : Listed (suc n) (seen ++ message_of i ∷ []) = record {
        known = All-append IsKnown seen (message_of i ∷ []) l.known (message_of-IsKnown i, tt);
        no_repeats = NoRepeats-snoc seen (message_of i) l.no_repeats e;
        few = omega (arith, length-append seen (message_of i ∷ []), l.few);
      } in
      let rest = add_messages-Listed (seen ++ message_of i ∷ []) issues (suc n) longer in
      simp e
        (record { known = rest.known; no_repeats = rest.no_repeats; few = omega (arith, rest.few) })
]

length-take-le : (n : ℕ) (issues : List ZodIssue) → length (take n issues) ≤ n
length-take-le zero issues = omega arith
length-take-le (suc n) [] = omega arith
length-take-le (suc n) (i ∷ issues) = omega (arith, length-take-le n issues)

-- The message about a refused configuration is the fallback or made of at most eight different known
-- messages, so that of an issue's own text, of unknown keys and of values nothing is shown.
pub configuration_diagnostic-Listed :
    (issues : List ZodIssue)
    → (ms : List String) × Listed 8 ms
      × (configuration_diagnostic issues ≡ or_else (joined "; " ms) "config: invalid configuration")
unfolding configuration_diagnostic
configuration_diagnostic-Listed issues =
    let l =
      add_messages-Listed [] (take 8 issues) 0
        (record { known = tt; no_repeats = tt; few = omega arith }) in
    (
      add_messages [] (take 8 issues),
      record {
        known = l.known;
        no_repeats = l.no_repeats;
        few = omega (arith, l.few, length-take-le 8 issues);
      },
      refl,
    )
