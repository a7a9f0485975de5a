-- ===== src/V1/Mcp/Message/Accepted.antt =====
-- What an accepted message is.
use secure_mcp.Shared.{
  Bool-cases, ◌⊎◌, ℕ, ◌≤◌, ◌≡◌, refl, sym, ap, ◌∙◌, inl, inr, Bool, true, false, none, some, List,
  arith, ltb, if◌then◌else◌, Option-cases, length, codes, subst,
}
use secure_mcp.V1.Mcp.Cache.{Entry, get, is_duplicate_request, store_request_hash}
use secure_mcp.V1.Mcp.Cache.Replay.{store_request_hash-get}
use secure_mcp.V1.Mcp.Values.{
  Value, Entries, Proto, object, plain, sanitize_entries, has_key, sanitize_data,
}
use secure_mcp.V1.Mcp.Values.Clean.{IsClean, sanitize_data-IsClean}
use secure_mcp.V1.Mcp.Message.{
  Host, Clock, Outcome, valid, invalid, text_of, parse_with, validate_json_rpc, validate_method,
  validate_if_method, examined, validate_message, max_message,
}
use secure_mcp.V1.Mcp.Schemas.{
  Schema, property, accepts, allowed_commands, schema_of, json_rpc_request, json_rpc_response,
}

valid-injective : {v w : Value} → valid v ≡ valid w → v ≡ w
valid-injective e = cc

-- The rules for an object's entries: a request has a method on the list and fits the general schema and
-- the method's own; without a method it is a response.
abbrev pub IsPermitted : Entries → Type 0
IsPermitted es =
    ((has_key es (codes "method") ≡ true)
      × ((accepts json_rpc_request es ≡ true)
          × ((schema : Schema) × ((schema_of allowed_commands
                    (text_of (property es (codes "method")))
                  ≡ some schema)
                × (accepts schema es ≡ true)))))
    ⊎ ((has_key es (codes "method") ≡ false) × (accepts json_rpc_response es ≡ true))

parsed_with :
    (host : Host) (schema : Schema) (es : Entries)
    → parse_with host schema es ≡ none
    → accepts schema es ≡ true
unfolding parse_with
parsed_with host schema es h = ground arith

method_ok :
    (host : Host) (es : Entries)
    → validate_method host es ≡ none
    → (schema : Schema) × ((schema_of allowed_commands (text_of (property es (codes "method")))
          ≡ some schema)
        × (accepts schema es ≡ true))
unfolding validate_method
method_ok host es h =
    elim (Option-cases (schema_of allowed_commands (text_of (property es (codes "method"))))) [
      | inl e ↦ absurd (ground (arith, h, e))
      | inr (schema, e) ↦ (schema, (e, parsed_with host schema es (ground (arith, h, e))))
    ]

permitted :
    (host : Host) (v : Value)
    → validate_json_rpc host v ≡ none
    → validate_if_method host v ≡ none
    → (proto : Proto) × ((es : Entries) × ((v ≡ object proto es) × IsPermitted es))
unfolding validate_json_rpc validate_if_method
permitted host (object proto es) h k = (
  proto,
  (
    es,
    (
      refl,
      elim (Bool-cases (has_key es (codes "method"))) [
        | inl m ↦ inl (
          m,
          (
            parsed_with host json_rpc_request es (ground (arith, h, m)),
            method_ok host es (ground (arith, k, m)),
          ),
        )
        | inr m ↦ inr (m, parsed_with host json_rpc_response es (ground (arith, h, m)))
      ],
    ),
  ),
)
permitted host Value.undefined h k = absurd (cc)
permitted host Value.null h k = absurd (cc)
permitted host (Value.boolean b) h k = absurd (cc)
permitted host (Value.number n) h k = absurd (cc)
permitted host (Value.text s) h k = absurd (cc)
permitted host (Value.array items) h k = absurd (cc)

-- What stands behind a message that is accepted as `v`.
pub record IsAccepted (host : Host) (message : List ℕ) (v : Value) : Type 0 where
  pub proto : Proto
  pub entries : Entries
  pub parsed : host.parse_json message ≡ some (object proto entries)
  pub rules : IsPermitted entries
  pub sanitized : v ≡ object plain (sanitize_entries host.purify entries)
  pub clean : IsClean host.purify v

examined-IsAccepted :
    (host : Host) (message : List ℕ) (v : Value)
    → examined host message ≡ valid v
    → IsAccepted host message v
unfolding examined sanitize_data sanitize_entries
examined-IsAccepted host message v h = elim (Option-cases (host.parse_json message)) [
  | inl e ↦ absurd (ground (arith, h, e))
  | inr (source, e) ↦ (elim (Option-cases (validate_json_rpc host source)) [
    | inr (error, q) ↦ absurd (ground (arith, h, e, q))
    | inl q ↦ elim (Option-cases (validate_if_method host source)) [
      | inr (error, r) ↦ absurd (ground (arith, h, e, q, r))
      | inl r ↦
          let (proto, (es, (o, p))) = permitted host source q r in
          let same_value : v ≡ sanitize_data host.purify source =
            valid-injective (ground (arith, h, e, q, r)) in
          record {
            proto = proto;
            entries = es;
            parsed = e ∙ ap (λ x. some x) o;
            rules = p;
            sanitized = same_value ∙ ap (sanitize_data host.purify) o;
            clean =
                subst (IsClean host.purify) (sym same_value)
                  (sanitize_data-IsClean host.purify source);
          }
    ]
  ])
]

not_ltb : (a b : ℕ) → ltb a b ≡ false → b ≤ a
not_ltb a b h = ground arith

-- The branches of `validateMessage`, and those that an accepted message takes.
abbrev pub answer :
    Bool → Bool → Outcome → List Entry → List Entry → List Entry → Outcome × List Entry
answer large duplicate o cache looked stored =
    if large
    then (invalid (codes "Message too large"), cache)
    else if duplicate
    then (invalid (codes "Duplicate request"), looked)
    else elim o [ invalid error ↦ (invalid error, looked) | valid w ↦ (valid w, stored) ]

settled :
    (large duplicate : Bool) (o : Outcome) (cache looked stored after : List Entry) (v : Value)
    → answer large duplicate o cache looked stored ≡ (valid v, after)
    → (large ≡ false) × ((o ≡ valid v) × (stored ≡ after))
settled true duplicate o cache looked stored after v h = absurd (cc)
settled false true o cache looked stored after v h = absurd (cc)
settled false false (invalid e) cache looked stored after v h = absurd (cc)
settled false false (valid w) cache looked stored after v h =
    (refl, (ap (λ x. x.0) h, ap (λ x. x.1) h))

-- A message that is accepted has at most a mebibyte of code units, and `JSON.parse` gives an object. If
-- that has a key `method`, it fits the schema of a request, its method is one of the six commands and it
-- fits the command's own schema; if not, it fits the schema of a response. What is passed on is the
-- object without the keys `__proto__`, `constructor` and `prototype` at any depth, with each text in it
-- as DOMPurify left it, and the message's hash is in the cache, with the time of the call.
pub validate_message-IsAccepted :
    (host : Host) (clock : Clock) (message : List ℕ) (cache after : List Entry) (v : Value)
    → validate_message host clock message cache ≡ (valid v, after)
    → (length message ≤ max_message)
      × (IsAccepted host message v × (get after (host.hash_message message) ≡ some clock.stored))
unfolding validate_message
validate_message-IsAccepted host clock message cache after v h =
    let hash = host.hash_message message in
    let (duplicate, looked) = is_duplicate_request clock.checked hash cache in
    let stored = store_request_hash clock.swept clock.stored hash looked in
    let (small, (ok, kept)) =
      settled (ltb max_message (length message)) duplicate (examined host message) cache looked
        stored after v h in
    (
      not_ltb max_message (length message) small,
      (
        examined-IsAccepted host message v ok,
        subst (λ x. get x hash ≡ some clock.stored) kept
            (store_request_hash-get clock.swept clock.stored hash looked),
      ),
    )
