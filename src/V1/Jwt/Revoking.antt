-- ===== src/V1/Jwt/Revoking.antt =====
-- legacy/v1/src/auth/jwt-service.ts: the methods that revoke, and the limit of the sessions.
use secure_mcp.Shared.{
  ℕ, ◌+◌, Bool, false, Option, none, some, List, [], ◌∷◌, ◌++◌, leb, if◌then◌else◌, length, codes,
}
use secure_mcp.Http.Target.{same}
use secure_mcp.V1.Actions.{Method, ◌>>=◌, ◌>>◌, pure, asks, calls, catch, parsed_or}
use secure_mcp.V1.Redis.{Redis}
use secure_mcp.V1.Redis.Writes.{Writes}
use secure_mcp.V1.Blacklist.{is_truthy, without, add_to_blacklist}
use secure_mcp.V1.Jwt.{Library, FamilyInfo, max_concurrent_sessions}

abbrev pub active_key : List ℕ → List ℕ
active_key jti = codes "active_token:" ++ jti

abbrev pub family_key : List ℕ → List ℕ
family_key family = codes "token_family:" ++ family

abbrev pub session_key : List ℕ → List ℕ
session_key session = codes "session_tokens:" ++ session

-- `field === text`, where the field may be missing.
abbrev pub is_field : Option (List ℕ) → List ℕ → Bool
is_field none x = false
is_field (some field) x = same field x

abbrev pub as_text : Option (List ℕ) → List ℕ
as_text none = codes "undefined"
as_text (some x) = x

module _ {S : Type 0} (redis : Redis S) (writes : Writes S) (library : Library) where
  abbrev pub delete : List ℕ → Method S ℕ
  delete key = calls (redis.del (key ∷ []))

  unfoldable pub revoke_token : List ℕ → Method S Unit
  revoke_token jti = delete (active_key jti) >> pure tt

  -- The first loop of `revokeSession`; an error ends a turn, not the loop.
  abbrev pub revoke_active : List ℕ → Method S Unit
  revoke_active key =
      catch
        (asks (redis.get key) >>= λ value.
          if is_truthy value then delete key >> pure tt else pure tt)
        (λ e. pure tt)

  abbrev pub revoke_actives : List (List ℕ) → Method S Unit
  revoke_actives [] = pure tt
  revoke_actives (k ∷ ks) = revoke_active k >> revoke_actives ks

  -- The loop over the families; `owned` is the test of a family.
  abbrev pub revoke_family : (FamilyInfo → Bool) → List ℕ → Option (List ℕ) → Method S Unit
  revoke_family owned key (some (c ∷ cs)) = parsed_or (library.parse_family (c ∷ cs)) >>= λ family.
      if owned family then delete key >> pure tt else pure tt
  revoke_family owned key _ = pure tt

  abbrev pub revoke_families : (FamilyInfo → Bool) → List (List ℕ) → Method S Unit
  revoke_families owned [] = pure tt
  revoke_families owned (k ∷ ks) =
      (asks (redis.get k) >>= λ value. revoke_family owned k value) >> revoke_families owned ks

  unfoldable pub revoke_session : List ℕ → Method S Unit
  revoke_session session = do
    keys ← asks (redis.keys (codes "active_token:"))
    revoke_actives keys
    families ← asks (redis.keys (codes "token_family:"))
    revoke_families (λ family. is_field family.session_id session) families

  abbrev pub delete_each : List (List ℕ) → Method S Unit
  delete_each [] = pure tt
  delete_each (k ∷ ks) = delete k >> delete_each ks

  unfoldable pub revoke_all_user_tokens : List ℕ → Method S Unit
  revoke_all_user_tokens user = do
    families ← asks (redis.keys (codes "token_family:"))
    revoke_families (λ family. is_field family.user_id user) families
    keys ← asks (redis.keys (codes "active_token:"))
    delete_each keys

  -- The first of the sessions ends when there are too many.
  abbrev pub end_oldest : List (List ℕ) → Method S Unit
  end_oldest [] = pure tt
  end_oldest (k ∷ ks) = revoke_session (without (codes "session_tokens:") k)

  unfoldable pub enforce_session_limit : Method S Unit
  unfolding revoke_session
  enforce_session_limit =
      catch
        (asks (redis.keys (codes "session_tokens:")) >>= λ keys.
          if leb max_concurrent_sessions (length keys) then end_oldest keys else pure tt)
        (λ e. pure tt)

  -- `addToBlacklist` for the next 24 hours, if there is an identifier.
  abbrev pub blacklist_for_a_day : Option (List ℕ) → List ℕ → List ℕ → ℕ → Method S Unit
  blacklist_for_a_day (some (c ∷ cs)) user reason now =
      add_to_blacklist redis writes library.stringify library.parse_entry (c ∷ cs) user
        (now + 86400000) reason now
  blacklist_for_a_day _ user reason now = pure tt

  abbrev pub invalidate : List ℕ → List ℕ → ℕ → Option (List ℕ) → Method S Unit
  invalidate family reason now (some (c ∷ cs)) = do
    info ← parsed_or (library.parse_family (c ∷ cs))
    blacklist_for_a_day info.jti (as_text info.user_id) reason now
    delete (family_key family)
    pure tt
  invalidate family reason now _ = pure tt

  unfoldable pub invalidate_token_family : List ℕ → List ℕ → ℕ → Method S Unit
  invalidate_token_family family reason now =
      catch (asks (redis.get (family_key family)) >>= λ found. invalidate family reason now found)
        (λ e. pure tt)
