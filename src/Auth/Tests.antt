-- ===== src/Auth/Tests.antt =====
-- Runs of the handlers of routes/auth.ts over services in memory.
use Prim.Native.String
use pm_chat.Base.{
  ℕ, ◌≡◌, ◌≢◌, ◌⊎◌, refl, arith, eq_iff, String, true, none, some, List, [], ◌∷◌, ◌===◌,
  if◌then◌else◌,
}
use pm_chat.Dict
use pm_chat.Schema.{Input, object, text, units}
use pm_chat.Services.{got}
use pm_chat.Services.Memory.{memory_redis, put}
use pm_chat.Auth.{
  refresh, TokenPayload, refresh_key, blacklist_token, is_token_blacklisted, revoke_refresh_token,
  is_refresh_token_valid, store_refresh_token, sign_access_token, refresh_token, accepted, refused,
  auth_missing, auth_invalid_type, strip, authenticate, auth_middleware, socket_auth_guard,
}
use pm_chat.Auth.PlainTokens.{plain_jwt, put_text, get_text, put_number, get_number, write, read}
use pm_chat.Auth.Routes.{
  Users, Bcrypt, Reply, Login, string_from, parse_login, parse_refresh, Ids, issue, Refreshing,
  checking, replied, rejected, revoked, server_error, tokens, check_refresh, revoke_refresh,
  advance_refresh, start_refresh, drop_refresh, logout, login,
}
use pm_chat.Auth.Effects.{Effect, blacklists, stores, revokes, effect, effects}
use pm_chat.Auth.Revocation.{logout-lasts, revoked-refused}
use pm_chat.Auth.Credentials.{AreIssued, login-AreIssued}

auth : Unit {0}
unfolding put blacklist_token is_token_blacklisted revoke_refresh_token is_refresh_token_valid
    store_refresh_token sign_access_token refresh_token strip authenticate auth_middleware
    socket_auth_guard put_text get_text put_number get_number write read string_from parse_login
    parse_refresh issue check_refresh revoke_refresh advance_refresh start_refresh drop_refresh
    logout login effect effects units Dict.get Dict.set Dict.delete
auth = tt

abbrev ids : Ids
ids = record { access_jti = "a2"; refresh_jti = "r2" }

abbrev old : TokenPayload
old = record { sub = "u"; jti = "r1"; kind = refresh }

abbrev stored_db : memory_redis.Db
stored_db = put (refresh_key "u" "r1") 604_800 "1" 0 []

-- The guard of the routes wants a bearer.
no_bearer : auth_middleware memory_redis plain_jwt (some "Basic x") 5 5 [] ≡ refused auth_missing
unfolding auth
no_bearer = refl

fresh_accepted :
    auth_middleware memory_redis plain_jwt
      (some (String.◌++◌ "Bearer " (sign_access_token plain_jwt 1 2 "u" "a" 0)))
      5
      5
      []
    ≡ accepted "u" "a"
unfolding auth
fresh_accepted = refl

-- A refresh token is no access token.
wrong_kind :
    socket_auth_guard memory_redis plain_jwt (some (refresh_token plain_jwt 1 1 "u" "r" 0)) 5 5 []
    ≡ refused auth_invalid_type
unfolding auth
wrong_kind = refl

abbrev Run : Type 0
Run = Refreshing memory_redis plain_jwt 1 1

abbrev advanced : (now : ℕ) → memory_redis.Db × Run → memory_redis.Db × Run
advanced now (db, r) = advance_refresh memory_redis plain_jwt 1 1 ids now db r

abbrev both_tokens : Run
both_tokens =
    replied
      (tokens (sign_access_token plain_jwt 1 1 "u" "a2" 7) (refresh_token plain_jwt 1 1 "u" "r2" 7))

-- Alone, a second refresh with the same token is refused.
second_refused :
    check_refresh memory_redis plain_jwt 1 1 old 9
      (advanced 7 (advanced 6 (advanced 5 (stored_db, checking old)))).0
    ≡ replied (rejected revoked)
unfolding auth
second_refused = refl

-- Two runs with the same token that look it up in turn before either revokes it: both get tokens.
abbrev second_first : memory_redis.Db × Run
second_first = advanced 7 (advanced 6 (advanced 5 (stored_db, checking old)))

raced :
    (second_first.1 ≡ both_tokens)
    × ((advanced 7
          (advanced 6 (second_first.0, check_refresh memory_redis plain_jwt 1 1 old 5 stored_db))).1
        ≡ both_tokens)
unfolding auth
raced = (refl, refl)

-- A logout revokes the refresh token that it is given.
logout_revokes :
    check_refresh memory_redis plain_jwt 1 1 old 9
      (logout memory_redis plain_jwt 1 1 "a1"
        (some (refresh_token plain_jwt 1 1 "u" "r1" 0))
        5
        6
        7
        stored_db).0
    ≡ replied (rejected revoked)
unfolding auth
logout_revokes = refl

abbrev writes : List Effect
writes = stores "u" "r3" 8 ∷ blacklists "a9" 900 9 ∷ revokes "u" "r4" 10 ∷ []

abbrev writes_later : List Effect
writes_later = stores "u" "r3" 6000 ∷ blacklists "a9" 900 6001 ∷ revokes "u" "r4" 6002 ∷ []

logout-lasts_example :
    authenticate memory_redis plain_jwt
      (sign_access_token plain_jwt 900 1 "u" "a1" 1000)
      6010
      6020
      (effects memory_redis
        (logout memory_redis plain_jwt 900 1 "a1" none 5000 5001 5002 stored_db).0
        writes_later)
    ≢ accepted "u" "a1"
unfolding auth
logout-lasts_example =
    logout-lasts memory_redis plain_jwt 900 1 "u" "a1" none 1000 5000 5001 5002 6010 6020 stored_db
      writes_later "u" "a1" (omega arith) refl
      (omega arith, ((omega arith, refl), (omega arith, tt))) (omega arith)

revoked-refused_example :
    (let db' =
        effects memory_redis (revoke_refresh memory_redis plain_jwt 1 1 old 5 stored_db).0 writes in
      let next = check_refresh memory_redis plain_jwt 1 1 old 12 db' in
      (next ≡ replied (rejected revoked)) ⊎ (next ≡ replied (rejected server_error)))
unfolding auth
revoked-refused_example =
    revoked-refused memory_redis plain_jwt 1 1 old 5 12 stored_db writes refl
      ((λ e. ground (arith, eq_iff (refresh_key "u" "r3") (refresh_key "u" "r1"))), (tt, (tt, tt)))

abbrev users : Users
users = record {
  Db = Unit {0};
  create = λ new db. got (db, "u");
  find_user = λ id db. got (if id === "u" then some ("u", some "secret") else none);
}

-- A hash that is the password: enough to run the handlers.
abbrev bcrypt : Bcrypt
bcrypt = record { hash = λ password salt. password; compare = λ password hash. password === hash }

abbrev request : Input
request = object (("userId", text "u") ∷ ("password", text "secret") ∷ [])

abbrev answer : memory_redis.Db × Reply
answer = login memory_redis plain_jwt 1 1 users bcrypt (λ id. true) request ids 7 tt []

login-AreIssued_example :
    (q : Login) × (id : String) × (hash : String) × (parse_login request ≡ some q)
    × (true ≡ true)
    × (users.find_user q.user_id tt ≡ got (some (id, some hash)))
    × (hash ≢ "")
    × (bcrypt.compare q.password hash ≡ true)
    × AreIssued memory_redis plain_jwt 1 1 id ids 7
        (sign_access_token plain_jwt 1 1 "u" "a2" 7)
        (refresh_token plain_jwt 1 1 "u" "r2" 7)
        answer.0
unfolding auth
login-AreIssued_example =
    login-AreIssued memory_redis plain_jwt 1 1 users bcrypt (λ id. true) request ids 7 tt []
      (sign_access_token plain_jwt 1 1 "u" "a2" 7) (refresh_token plain_jwt 1 1 "u" "r2" 7) refl
