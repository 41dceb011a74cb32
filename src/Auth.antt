-- ===== src/Auth.antt =====
-- apps/server/src/utils/jwt.ts, middleware/auth.ts, socket/guards.ts and routes/auth.ts: tokens, who
-- is let in, and how tokens are issued, rotated and revoked. `jsonwebtoken` is the parameter `Jwt`;
-- the random identifiers of tokens are arguments, and so are the lifetimes that the configuration
-- sets, in seconds. Each function takes the reading of the clock at each of its `await`s.
pub mod Routes
pub mod Effects
pub mod Revocation
pub mod Credentials
mod PlainTokens
mod Tests
use Prim.Native.Char.{code}
use Prim.Native.String
use pm_chat.Base.{
  ℕ, ◌+◌, ◌*◌, ◌≤◌, ◌≡◌, ◌⊎◌, String, Bool, true, false, Option, none, some, if◌then◌else◌, ◌==◌,
  ◌===◌,
}
use pm_chat.Services.{Answer, failed, got}
use pm_chat.Services.Redis.{Redis}

pub data Kind : Type 0 where
  access refresh : Kind

pub record TokenPayload : Type 0 where
  pub sub : String
  pub jti : String
  pub kind : Kind

-- `jwt.sign` and `jwt.verify` with the server's secret. A token holds no longer than its lifetime;
-- it holds until a second before its end, as its times are whole seconds. What it holds is what
-- was signed.
pub record Jwt : Type 0 where
  pub sign : TokenPayload → (expires_in now : ℕ) → String
  pub verify : (token : String) (now : ℕ) → Option TokenPayload
  pub verify_sign :
      (p : TokenPayload) (expires_in issued now : ℕ)
      → issued ≤ now
      → now + 1000 ≤ issued + expires_in * 1000
      → verify (sign p expires_in issued) now ≡ some p
  pub verify_cases :
      (p : TokenPayload) (expires_in issued now : ℕ)
      → (verify (sign p expires_in issued) now ≡ none)
        ⊎ (verify (sign p expires_in issued) now ≡ some p)
  pub verify_expired :
      (p : TokenPayload) (expires_in issued now : ℕ)
      → issued + expires_in * 1000 ≤ now
      → verify (sign p expires_in issued) now ≡ none

-- `REDIS_KEYS.tokenBlacklist`
abbrev pub blacklist_key : (jti : String) → String
blacklist_key jti = String.◌++◌ "blacklist:" jti

-- `REDIS_KEYS.refreshToken`
abbrev pub refresh_key : (user_id jti : String) → String
refresh_key user_id jti = String.◌++◌ "refresh:" (String.◌++◌ user_id (String.◌++◌ ":" jti))

-- `REDIS_TTL.refreshToken`
abbrev pub refresh_token_ttl : ℕ
refresh_token_ttl = 604_800

abbrev is_there : Answer (Option String) → Answer Bool
is_there failed = failed
is_there (got none) = got false
is_there (got (some v)) = got true

module _ (R : Redis) where
  -- `blacklistToken`
  unfoldable pub blacklist_token : (jti : String) (ttl_seconds now : ℕ) → R.Db → Answer R.Db
  blacklist_token jti ttl_seconds now = R.setex (blacklist_key jti) ttl_seconds "1" now

  -- `isTokenBlacklisted`
  unfoldable pub is_token_blacklisted : (jti : String) (now : ℕ) → R.Db → Answer Bool
  is_token_blacklisted jti now db = is_there (R.get (blacklist_key jti) now db)

  -- `revokeRefreshToken`
  unfoldable pub revoke_refresh_token : (user_id jti : String) (now : ℕ) → R.Db → Answer R.Db
  revoke_refresh_token user_id jti now = R.del (refresh_key user_id jti) now

  -- `isRefreshTokenValid`
  unfoldable pub is_refresh_token_valid : (user_id jti : String) (now : ℕ) → R.Db → Answer Bool
  is_refresh_token_valid user_id jti now db = is_there (R.get (refresh_key user_id jti) now db)

  -- what `signRefreshToken` stores
  unfoldable pub store_refresh_token : (user_id jti : String) (now : ℕ) → R.Db → Answer R.Db
  store_refresh_token user_id jti now = R.setex (refresh_key user_id jti) refresh_token_ttl "1" now

module _ (J : Jwt) (access_expires_in refresh_expires_in : ℕ) where
  -- `signAccessToken`
  unfoldable pub sign_access_token : (user_id jti : String) (now : ℕ) → String
  sign_access_token user_id jti now =
      J.sign (record { sub = user_id; jti = jti; kind = access }) access_expires_in now

  -- the token of `signRefreshToken`
  unfoldable pub refresh_token : (user_id jti : String) (now : ℕ) → String
  refresh_token user_id jti now =
      J.sign (record { sub = user_id; jti = jti; kind = refresh }) refresh_expires_in now

pub data Refusal : Type 0 where
  auth_missing auth_invalid_type auth_revoked auth_invalid : Refusal

pub data Decision : Type 0 where
  refused : Refusal → Decision
  accepted : (user_id token_jti : String) → Decision

-- `startsWith` a text, and what follows it
unfoldable pub strip : (start s : String) → Option String
strip String.[] s = some s
strip (String.◌∷◌ c start) String.[] = none
strip (String.◌∷◌ c start) (String.◌∷◌ d s) = if code c == code d then strip start s else none

module _ (R : Redis) (J : Jwt) where
  abbrev on_blacklist : TokenPayload → Answer Bool → Decision
  on_blacklist p failed = refused auth_invalid
  on_blacklist p (got true) = refused auth_revoked
  on_blacklist p (got false) = accepted p.sub p.jti

  abbrev on_kind : (later : ℕ) → R.Db → TokenPayload → Kind → Decision
  on_kind later db p refresh = refused auth_invalid_type
  on_kind later db p access = on_blacklist p (is_token_blacklisted R p.jti later db)

  -- The shared part of the two guards: verify the token at `now`, ask the blacklist at `later`.
  unfoldable pub authenticate : (token : String) (now later : ℕ) → R.Db → Decision
  authenticate token now later db = elim (J.verify token now) [
    | none ↦ refused auth_invalid
    | some p ↦ on_kind later db p p.kind
  ]

  -- `authMiddleware`
  unfoldable pub auth_middleware : (authorization : Option String) (now later : ℕ) → R.Db → Decision
  auth_middleware none now later db = refused auth_missing
  auth_middleware (some header) now later db = elim (strip "Bearer " header) [
    | none ↦ refused auth_missing
    | some token ↦ authenticate token now later db
  ]

  -- `socketAuthGuard`
  unfoldable pub socket_auth_guard : (token : Option String) (now later : ℕ) → R.Db → Decision
  socket_auth_guard none now later db = refused auth_missing
  socket_auth_guard (some token) now later db =
      if token === "" then refused auth_missing else authenticate token now later db
