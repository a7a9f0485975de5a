-- ===== src/V1/Jwt/Never.antt =====
-- That a refresh token of a new pair is never accepted.
use secure_mcp.Shared.{
  ℕ, ◌≡◌, refl, sym, ap, ◌∙◌, ◌≢◌, inl, inr, true, false, Option, none, some, List, [], ◌∷◌,
  Bool-cases, subst,
}
use secure_mcp.Http.Target.{same}
use secure_mcp.Http.Target.Sound.{same_refl, same-eq}
use secure_mcp.V1.Actions.{Result, Failure, ok, thrown}
use secure_mcp.V1.Redis.{RedisLaws}
use secure_mcp.V1.Redis.SortedSets.{TextLaws}
use secure_mcp.V1.Redis.Writes.{WriteLaws}
use secure_mcp.V1.RateLimiter.{refresh, key_of}
use secure_mcp.V1.Lock.{acquire_lock, full_key, Sleep}
use secure_mcp.V1.Blacklist.Kept.{CarriesOut}
use secure_mcp.V1.Jwt.{
  RefreshClaims, RefreshTokenPayload, TokenPair, FamilyInfo, TokenFamily, Library,
}
use secure_mcp.V1.Jwt.Revoking.{family_key}
use secure_mcp.V1.Jwt.Tokens.{
  lock_name, refresh_options, pair_writes, World, Draw, User, Attempt, pair_of, family_of,
  generate_token_pair, refresh_access_token, refresh_claims, is_replayed, or_empty,
}
use secure_mcp.V1.Jwt.Kept.{check_keeps, acquire_keeps}
use secure_mcp.V1.Jwt.Refreshed.{
  limited_at, locked_at, generate_token_pair-ok, refresh_access_token-IsGranted, IsGranted,
}

-- What the documentation of jsonwebtoken and of JSON says: a token that is verified has the claims that
-- were signed, and the text of a family is read as the family.
pub record LibraryLaws (library : Library) : Type 0 where
  pub verify_signed :
      (claims : RefreshClaims) (secret : List ℕ) (ttl : ℕ) (p : RefreshTokenPayload)
      → library.verify_refresh (library.sign_refresh claims secret ttl) secret ≡ some p
      → p.claims ≡ claims
  pub parse_written :
      (f : TokenFamily)
      → library.parse_family (library.family_text f)
        ≡ some
            (record { user_id = some f.user_id; session_id = some f.session_id; jti = some f.jti })

-- An identifier that is there and is another than the token's.
replayed : (a b : List ℕ) → a ≢ [] → a ≢ b → is_replayed (some a) b ≡ true
replayed [] b some_jti other = absurd (some_jti refl)
replayed (c ∷ cs) b some_jti other = elim (Bool-cases (same (c ∷ cs) b)) [
  | inl equal ↦ absurd (other (same-eq (c ∷ cs) b equal))
  | inr differ ↦ rw differ refl
]

jti_in : Option FamilyInfo → Option (List ℕ)
jti_in none = none
jti_in (some info) = info.jti

failed_with :
    {A S : Type 0} (r : Result A × S)
    → ((a : A) (last : S) → r ≢ (ok a, last))
    → (e : Failure) × (r.0 ≡ thrown e)
failed_with (ok a, s) h = absurd (h a s refl)
failed_with (thrown e, s) h = (e, refl)

module _ {S : Type 0} (w : World S) (laws : RedisLaws w.redis) (texts : TextLaws w.redis w.sets)
    (write_laws : WriteLaws w.redis w.writes) (carries : CarriesOut w.writes)
    (library_laws : LibraryLaws w.library) where
  -- A pair that is made leaves the text of its family.
  family_written :
      (user : User) (draw : Draw) (s last : S) (pair : TokenPair)
      → generate_token_pair w user draw s ≡ (ok pair, last)
      → (pair_of w user draw ≡ pair)
        × (w.redis.get_now (family_key draw.family) last
            ≡ some (w.library.family_text (family_of w user draw)))
  family_written user draw s last pair h =
      let (same_pair, (before, same_store)) = generate_token_pair-ok w user draw s last pair h in
      let (oks, done, good) = carries (pair_writes w user draw) before in
      let key = family_key draw.family in
      (
        same_pair,
        ap (w.redis.get_now key) (sym same_store)
            ∙ write_laws.exec_writes (pair_writes w user draw) key before oks done good
            ∙ rw (same_refl draw.family) refl,
      )

  never :
      (user : User) (draw : Draw) (attempt : Attempt S) (s : S) (pair : TokenPair)
      → draw.jti ≢ []
      → draw.jti ≢ draw.refresh_jti
      → same (key_of (w.limits refresh) user.user_id) (family_key draw.family) ≡ false
      → ((p : Sleep) (x : S)
          → w.redis.get_now (family_key draw.family) (attempt.asleep p x)
            ≡ w.redis.get_now (family_key draw.family) x)
      → w.redis.get_now (family_key draw.family) s
        ≡ some (w.library.family_text (family_of w user draw))
      → IsGranted w (refresh_claims w user draw) attempt s pair
      → ⊥
  unfolding acquire_lock jti_in
  never user draw attempt s pair some_jti other apart quiet there
        (_, _, (text, found, (_, (info, parsed, unreplayed))), _) =
      let claims = refresh_claims w user draw in
      let key = family_key draw.family in
      let limit = limited_at w claims attempt s in
      let acquired = locked_at w claims attempt limit.1 in
      let kept : w.redis.get_now key acquired.1 ≡ w.redis.get_now key s =
        acquire_keeps w.redis w.sets w.lua texts refresh_options attempt.asleep attempt.random key
          (full_key (lock_name claims)) attempt.lock_value 5 limit.1 refl quiet
        ∙ check_keeps w.redis w.sets w.lua texts w.limits user.user_id refresh attempt.moment.now
            key s apart in
      let written = laws.get_answered key acquired.1 text found ∙ kept ∙ there in
      let read =
        sym (library_laws.parse_written (family_of w user draw))
        ∙ ap (λ t. w.library.parse_family (or_empty t)) (sym written)
        ∙ parsed in
      let same_jti : some draw.jti ≡ info.jti = ap jti_in read in
      let wrong : true ≡ false =
        sym (replayed draw.jti draw.refresh_jti some_jti other)
        ∙ ap (λ j. is_replayed j draw.refresh_jti) same_jti
        ∙ unreplayed in
      (cc)

  -- With the laws of the libraries and of Redis: when a pair has been made, then as long as the text of
  -- its family stays as it was written, every refresh with its refresh token throws, since the family
  -- has the access token's identifier and the refresh token another; the limiter's key is not the
  -- family's, and sleeps leave the text.
  pub refresh_access_token-never :
      (user : User) (draw : Draw) (s made later : S) (pair : TokenPair) (attempt : Attempt S)
      → generate_token_pair w user draw s ≡ (ok pair, made)
      → w.redis.get_now (family_key draw.family) later
        ≡ w.redis.get_now (family_key draw.family) made
      → draw.jti ≢ []
      → draw.jti ≢ draw.refresh_jti
      → same (key_of (w.limits refresh) user.user_id) (family_key draw.family) ≡ false
      → ((p : Sleep) (x : S)
          → w.redis.get_now (family_key draw.family) (attempt.asleep p x)
            ≡ w.redis.get_now (family_key draw.family) x)
      → (e : Failure) × ((refresh_access_token w pair.refresh_token attempt later).0 ≡ thrown e)
  refresh_access_token-never user draw s made later pair attempt h stays some_jti other apart
        quiet =
      let (same_pair, there) = family_written user draw s made pair h in
      failed_with (refresh_access_token w pair.refresh_token attempt later) λ pair' last h'.
        let (_, (payload, verified, granted)) =
          refresh_access_token-IsGranted w pair.refresh_token attempt later last pair' h' in
        never user draw attempt later pair' some_jti other apart quiet (stays ∙ there) (
          subst (λ c. IsGranted w c attempt later pair')
            (library_laws.verify_signed (refresh_claims w user draw) _ _ payload (
              ap
                (λ (t : TokenPair).
                  w.library.verify_refresh t.refresh_token w.service.refresh_token_secret)
                same_pair
              ∙ verified))
            granted)
