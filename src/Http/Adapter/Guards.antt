-- ===== src/Http/Adapter/Guards.antt =====
-- What each response of `fetch` stands for.
use secure_mcp.Shared.{ℕ, ◌≡◌, refl, Bool, true, false, not, arith, str_eq, if◌then◌else◌, includes}
use secure_mcp.Errors.{Outcome, value, raised}
use secure_mcp.Http.Adapter.{
  Endpoint, mcp, metrics, Fetch, Content, forbidden, method_not_allowed, metrics_text,
  batch_refused, sdk_body, failed, Response, batch, fetch, response_of, respond, failure, recorded,
  mcp_response, metrics_response, from_sdk,
}

-- What is known when a content is answered.
abbrev pub Justified : Fetch → Response → Content → Type 0
Justified f r forbidden =
    (f.endpoint ≡ metrics)
    × (includes f.scopes "metrics:read" ≡ false)
    × (f.accepts r.status ≡ true)
Justified f r method_not_allowed =
    (f.endpoint ≡ metrics) × (str_eq f.method "GET" ≡ false) × (f.accepts r.status ≡ true)
Justified f r metrics_text =
    (f.endpoint ≡ metrics)
    × (includes f.scopes "metrics:read" ≡ true)
    × (str_eq f.method "GET" ≡ true)
    × (f.accepts r.status ≡ true)
Justified f r batch_refused =
    (f.endpoint ≡ mcp) × (batch f ≡ value true) × (f.accepts r.status ≡ true)
Justified f r sdk_body =
    (f.endpoint ≡ mcp)
    × (batch f ≡ value false)
    × (f.sdk ≡ value r.status)
    × (f.accepts r.status ≡ true)
Justified f r failed = r.status ≡ (if f.healthy then 500 else 503)

abbrev IsJustified : Fetch → Response → Type 0
IsJustified f r = Justified f r r.content

if_response :
    (b : Bool) (P : Response → Type 0) (x y : Response)
    → (b ≡ true → P x)
    → (b ≡ false → P y)
    → P (if b then x else y)
if_response true P x y p q = p refl
if_response false P x y p q = q refl

failure-IsJustified : (f : Fetch) → IsJustified f (failure f)
failure-IsJustified f =
    if_response f.healthy (IsJustified f) _ _ (λ h. ground (arith, h)) (λ h. ground (arith, h))

recorded-IsJustified :
    (f : Fetch) (r : Response)
    → (f.accepts r.status ≡ true → IsJustified f r)
    → IsJustified f (recorded f (value r))
recorded-IsJustified f r h =
    if_response (f.accepts r.status) (IsJustified f) _ _ h (λ _. failure-IsJustified f)

abbrev Grounded : Fetch → Response → Type 0
Grounded f r = f.accepts r.status ≡ true → IsJustified f r

metrics-Grounded :
    (f : Fetch) → f.endpoint ≡ metrics → Grounded f (metrics_response f.scopes f.method)
metrics-Grounded f e =
    if_response (not (includes f.scopes "metrics:read")) (Grounded f) _ _
      (λ h a. (e, ground arith, a))
      (λ h.
        if_response (not (str_eq f.method "GET")) (Grounded f) _ _ (λ k a. (e, ground arith, a))
          (λ k a. (e, ground arith, ground arith, a)))

sdk-IsJustified :
    (f : Fetch) (o : Outcome ℕ)
    → f.endpoint ≡ mcp
    → batch f ≡ value false
    → f.sdk ≡ o
    → IsJustified f (recorded f (from_sdk o))
sdk-IsJustified f (raised x) e b h = failure-IsJustified f
sdk-IsJustified f (value status) e b h =
    recorded-IsJustified f (respond status sdk_body) (λ a. (e, b, h, a))

mcp-IsJustified :
    (f : Fetch) (o : Outcome Bool)
    → f.endpoint ≡ mcp
    → batch f ≡ o
    → IsJustified f (recorded f (mcp_response f o))
mcp-IsJustified f (raised x) e h = failure-IsJustified f
mcp-IsJustified f (value true) e h =
    recorded-IsJustified f (respond 400 batch_refused) (λ a. (e, h, a))
mcp-IsJustified f (value false) e h = sdk-IsJustified f f.sdk e h refl

response-IsJustified :
    (f : Fetch) (x : Endpoint) → f.endpoint ≡ x → IsJustified f (recorded f (response_of f x))
unfolding response_of
response-IsJustified f metrics e = recorded-IsJustified f _ (metrics-Grounded f e)
response-IsJustified f mcp e = mcp-IsJustified f (batch f) e refl

-- Every response of `fetch` is justified. The metrics are shown only to a `GET` on their endpoint with
-- the scope `metrics:read`; a status of the SDK is answered only on the other endpoint and for a
-- message that is no batch; either of these, and each refusal, only after the audit acknowledged its
-- record; all else is 500, or 503 where the audit is unhealthy.
pub fetch-Justified : (f : Fetch) → Justified f (fetch f) (fetch f).content
unfolding fetch
fetch-Justified f = response-IsJustified f f.endpoint refl
