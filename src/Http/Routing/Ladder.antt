-- ===== src/Http/Routing/Ladder.antt =====
-- When a request comes as far as the authentication, and what `/health` answers.
use secure_mcp.Shared.{
  ℕ, ◌<◌, ◌≡◌, ap, ◌∙◌, ◌↔◌, inl, inr, Bool, true, false, ◌&&◌, Option, some, List, [], ◌∷◌, arith,
  Option-cases, codes, subst,
}
use secure_mcp.Http.Target.{request_path, same}
use secure_mcp.Http.Routing.{
  Settings, Request, authenticate, route, route_path, admit_token, has_method, origin_allowed,
  is_protected, token_of, target_of, is_some, metadata_path,
}

-- A preflight request is answered without a token.
abbrev pub is_preflight : Request → List ℕ → Bool
is_preflight request path =
    has_method "OPTIONS" request && (is_some request.origin && same path (codes "/mcp"))

-- All that a request must satisfy to be authenticated on a path with a token.
pub record Admissible (settings : Settings) (closing : Bool) (authenticating : ℕ)
    (request : Request) (path token : List ℕ) : Type 0 where
  pub targeted : request_path settings.parse_url (target_of request) settings.origin ≡ some path
  pub hosted : settings.valid_host request.host settings.hostname ≡ true
  pub from_allowed : origin_allowed settings request ≡ true
  pub serving : closing ≡ false
  pub protected_path : is_protected path ≡ true
  pub no_preflight : is_preflight request path ≡ false
  pub bears : token_of request ≡ some token
  pub room : authenticating < settings.max_concurrent

path_cases :
    (path : List ℕ)
    → is_protected path ≡ true
    → (same path (codes "/health") ≡ false)
      × (same path metadata_path ≡ false)
      × (same path (codes "/.well-known/oauth-protected-resource") ≡ false)
path_cases [] h = absurd (cc)
path_cases (x ∷ []) h = absurd (ground arith)
path_cases (x ∷ y ∷ rest) h = (ground arith, ground arith, ground arith)

admit_token-authenticate :
    (settings : Settings) (authenticating : ℕ) (path path' token : List ℕ) (o : Option (List ℕ))
    → admit_token settings authenticating path o ≡ authenticate path' token
    → (path ≡ path') × (o ≡ some token) × (authenticating < settings.max_concurrent)
unfolding admit_token
admit_token-authenticate settings n path path' token o h = ground arith

route_path-authenticate :
    (settings : Settings) (closing healthy : Bool) (authenticating : ℕ) (request : Request)
    (path path' token : List ℕ)
    → route_path settings closing healthy authenticating request path ≡ authenticate path' token
    → (settings.valid_host request.host settings.hostname ≡ true)
      × (origin_allowed settings request ≡ true)
      × (closing ≡ false)
      × (is_protected path ≡ true)
      × (is_preflight request path ≡ false)
      × (admit_token settings authenticating path (token_of request) ≡ authenticate path' token)
unfolding route_path
route_path-authenticate settings closing healthy n request path path' token h =
    (ground arith, ground arith, ground arith, ground arith, ground arith, ground arith)

route_path-Admissible :
    (settings : Settings) (closing healthy : Bool) (authenticating : ℕ) (request : Request)
    (path token : List ℕ)
    → Admissible settings closing authenticating request path token
    → route_path settings closing healthy authenticating request path ≡ authenticate path token
unfolding route_path admit_token
route_path-Admissible settings closing healthy n request path token a =
    let (h, m, m') = path_cases path a.protected_path in
    rw (a.hosted, a.from_allowed, a.serving, h, m, m', a.no_preflight, a.protected_path, a.bears)
      (ground (arith, a.room))

Admissible-path :
    (settings : Settings) (closing healthy : Bool) (authenticating : ℕ) (request : Request)
    (found path token : List ℕ)
    → request_path settings.parse_url (target_of request) settings.origin ≡ some found
    → route_path settings closing healthy authenticating request found ≡ authenticate path token
    → Admissible settings closing authenticating request path token
Admissible-path settings closing healthy n request found path token e r =
    let (hosted, from_allowed, serving, protected_path, no_preflight, admitted) =
      route_path-authenticate settings closing healthy n request found path token r in
    let (same_path, bears, room) =
      admit_token-authenticate settings n found path token (token_of request) admitted in
    record {
      targeted = e ∙ ap some same_path;
      hosted = hosted;
      from_allowed = from_allowed;
      serving = serving;
      protected_path = subst (λ p. is_protected p ≡ true) same_path protected_path;
      no_preflight = subst (λ p. is_preflight request p ≡ false) same_path no_preflight;
      bears = bears;
      room = room;
    }

-- A request is authenticated on a path and with a token exactly if its target is valid and has that
-- path, its host and its origin are allowed, the server is not closing, the path is a protected one,
-- the request is no preflight, it bears the token, and fewer requests than the limit are being
-- authenticated.
pub route_iff :
    (settings : Settings) (closing healthy : Bool) (authenticating : ℕ) (request : Request)
    (path token : List ℕ)
    → (route settings closing healthy authenticating request ≡ authenticate path token)
      ↔ Admissible settings closing authenticating request path token
unfolding route
route_iff settings closing healthy n request path token = (
  λ h. elim (Option-cases (request_path settings.parse_url (target_of request) settings.origin)) [
    | inl e ↦ absurd (ground (arith, e, h))
    | inr (found, e) ↦
        Admissible-path settings closing healthy n request found path token e (rw (route, e) at h)
  ],
  λ a.
      rw (route, a.targeted)
        (route_path-Admissible settings closing healthy n request path token a),
)
