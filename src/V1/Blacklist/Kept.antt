-- ===== src/V1/Blacklist/Kept.antt =====
-- What the blacklist keeps when Redis carries out the pipelines.
use secure_mcp.Shared.{
  ℕ, ◌-◌, ◌<◌, ◌≡◌, refl, ap, ◌∙◌, inl, inr, Bool, true, false, Option, none, some, List, ◌++◌,
  arith, leb, if◌then◌else◌, Option-cases, all, codes,
}
use secure_mcp.Http.Target.Sound.{same_refl}
use secure_mcp.Http.Target.{same}
use secure_mcp.V1.Actions.{because, ok, after, ◌>>◌, pure, throw, handled, replied}
use secure_mcp.V1.Redis.{Redis, RedisLaws}
use secure_mcp.V1.Redis.Writes.{Writes, WriteLaws, Write, all_written}
use secure_mcp.V1.Blacklist.{
  BlacklistEntry, blacklist_key, seconds_up, execute, entry_writes, add_to_blacklist, or_because,
  is_blacklisted, remove_from_blacklist,
}

abbrev pub is_present : Option (List ℕ) → Bool
is_present none = false
is_present (some v) = true

overwritten :
    (c : Bool) (v : List ℕ) (old : Option (List ℕ))
    → is_present old ≡ true
    → is_present (if c then some v else old) ≡ true
overwritten true v old h = refl
overwritten false v old h = h

present_some : (v : Option (List ℕ)) → is_present v ≡ true → (x : List ℕ) × (v ≡ some x)
present_some none h = absurd (cc)
present_some (some x) h = (x, refl)

abbrev pub is_unanswered : Option (Option (List ℕ)) → Bool
is_unanswered none = true
is_unanswered (some v) = false

-- Every pipeline is carried out, whole.
abbrev pub CarriesOut : {S : Type 0} → Writes S → Type 0
CarriesOut {S} writes =
    (ws : List Write) (s : S)
    → (oks : List Bool) × ((writes.exec ws s).0 ≡ some oks) × (all (λ b. b) oks ≡ true)

abbrev pub active_key : List ℕ → List ℕ
active_key jti = codes "active_token:" ++ jti

module _ {S : Type 0} (redis : Redis S) (writes : Writes S) (laws : RedisLaws redis)
    (write_laws : WriteLaws redis writes) (carries : CarriesOut writes)
    (stringify : BlacklistEntry → List ℕ) (parse : List ℕ → Option BlacklistEntry) where
  -- What is there after a pipeline.
  pub execute_done :
      (ws : List Write) (s : S)
      → (last : S) × (oks : List Bool) × (execute redis writes stringify parse ws s
          ≡ (ok oks, last))
        × ((k : List ℕ) → redis.get_now k last ≡ all_written ws k (redis.get_now k s))
  execute_done ws s =
      let (oks, h, good) = carries ws s in
      (
        (writes.exec ws s).1,
        oks,
        ap (λ r. (replied r, (writes.exec ws s).1)) h,
        λ k. write_laws.exec_writes ws k s oks h good,
      )

  -- A token counts as blacklisted when its key is there, even if GET fails.
  pub there_is_blacklisted :
      (jti : List ℕ) (s : S)
      → is_present (redis.get_now (blacklist_key jti) s) ≡ true
      → is_blacklisted redis writes stringify parse jti s ≡ true
  unfolding is_blacklisted
  there_is_blacklisted jti s h = elim (Option-cases (redis.get (blacklist_key jti) s)) [
    | inl failed ↦ rw (is_blacklisted, failed) refl
    | inr (v, answered) ↦
        let (entry, there) = present_some _ h in
        rw (is_blacklisted, answered, laws.get_answered _ s v answered, there) refl
  ]

  -- Without its key, it does so only if GET fails.
  gone_is_unanswered :
      (jti : List ℕ) (s : S)
      → redis.get_now (blacklist_key jti) s ≡ none
      → is_blacklisted redis writes stringify parse jti s
        ≡ is_unanswered (redis.get (blacklist_key jti) s)
  unfolding is_blacklisted
  gone_is_unanswered jti s h = elim (Option-cases (redis.get (blacklist_key jti) s)) [
    | inl failed ↦ rw (is_blacklisted, failed) refl
    | inr (v, answered) ↦ rw (is_blacklisted, answered, laws.get_answered _ s v answered, h) refl
  ]

  -- A pipeline whose result is not looked at.
  pub executed :
      (text : List ℕ) (ws : List Write) (s : S)
      → (last : S) × (or_because text (execute redis writes stringify parse ws >> pure tt) s
          ≡ (ok tt, last))
        × ((k : List ℕ) → redis.get_now k last ≡ all_written ws k (redis.get_now k s))
  executed text ws s =
      let (last, oks, h, there) = execute_done ws s in
      (last, ap (λ r. handled (after r (λ _. pure tt)) (λ e. throw (because text e))) h, there)

  -- A token that does not expire at once is there afterwards; no key that was there is gone, and the
  -- keys of active tokens are as before.
  pub add_to_blacklist-done :
      (jti user : List ℕ) (expires : ℕ) (reason : List ℕ) (now : ℕ) (s : S)
      → now < expires
      → (last : S) × (add_to_blacklist redis writes stringify parse jti user expires reason now s
          ≡ (ok tt, last))
        × (is_present (redis.get_now (blacklist_key jti) last) ≡ true)
        × ((other : List ℕ)
            → is_present (redis.get_now (blacklist_key other) s) ≡ true
            → is_present (redis.get_now (blacklist_key other) last) ≡ true)
        × ((other : List ℕ)
            → redis.get_now (active_key other) last ≡ redis.get_now (active_key other) s)
  unfolding add_to_blacklist
  add_to_blacklist-done jti user expires reason now s later =
      let not_yet : leb expires now ≡ false = ground arith in
      let entry : BlacklistEntry = record {
        jti = jti;
        user_id = user;
        reason = reason;
        expires_at = expires;
        blacklisted_at = now;
      } in
      let ws = entry_writes redis writes stringify parse entry (seconds_up (expires - now)) in
      let (last, h, there) = executed (codes "Failed to blacklist token: ") ws s in
      (
        last,
        rw not_yet h,
        rw (there (blacklist_key jti), same_refl jti) refl,
        λ other old. rw (there (blacklist_key other)) (overwritten (same jti other) _ _ old),
        λ other. there (active_key other),
      )

  -- With a Redis that keeps the named laws and carries out every pipeline: a token that has not expired
  -- is blacklisted once `addToBlacklist` returns, also if GET fails, and as long as its key stays as it
  -- is; after `removeFromBlacklist` it counts as blacklisted only if GET fails.
  pub add_to_blacklist-remove :
      (jti user : List ℕ) (expires : ℕ) (reason : List ℕ) (now : ℕ) (drift : S → S) (s : S)
      → now < expires
      → ((x : S)
          → redis.get_now (blacklist_key jti) (drift x) ≡ redis.get_now (blacklist_key jti) x)
      → (added : S) × (removed : S) × (add_to_blacklist redis writes stringify parse jti user
            expires reason now s
          ≡ (ok tt, added))
        × (is_blacklisted redis writes stringify parse jti (drift added) ≡ true)
        × (remove_from_blacklist redis writes stringify parse jti user (drift added)
            ≡ (ok tt, removed))
        × (is_blacklisted redis writes stringify parse jti removed
            ≡ is_unanswered (redis.get (blacklist_key jti) removed))
  unfolding remove_from_blacklist
  add_to_blacklist-remove jti user expires reason now drift s later stays =
      let (added, h, there, _, _) = add_to_blacklist-done jti user expires reason now s later in
      let (removed, h', gone) =
        executed (codes "Failed to remove token from blacklist: ") _ (drift added) in
      (
        added,
        removed,
        h,
        there_is_blacklisted jti (drift added) (ap is_present (stays added) ∙ there),
        h',
        gone_is_unanswered jti removed (gone (blacklist_key jti) ∙ rw (same_refl jti) refl),
      )
