-- ===== src/Auth/Routes.antt =====
-- apps/server/src/routes/auth.ts, behind the rate limiter: register, login, refresh and logout, from
-- `await` to `await`. The users are a parameter, and so is bcrypt.
use pm_chat.Base.{ℕ, String, Bool, true, false, Option, none, some, if◌then◌else◌, ◌===◌, leb}
use pm_chat.Dict
use pm_chat.Schema.{Input, fields, string_of, optional, text, Value, units, codes, ◌>>=◌}
use pm_chat.Services.{Answer, failed, got, or_same}
use pm_chat.Services.Redis.{Redis}
use pm_chat.Auth.{
  Kind, access, refresh, TokenPayload, Jwt, blacklist_token, revoke_refresh_token,
  is_refresh_token_valid, store_refresh_token, sign_access_token, refresh_token,
}

pub data Rejection : Type 0 where
  validation_failed invalid_credentials invalid_token wrong_type revoked server_error : Rejection

pub data Reply : Type 0 where
  rejected : Rejection → Reply
  tokens : (access_token refresh_token : String) → Reply
  registered : (user_id nickname access_token refresh_token : String) → Reply
  logged_out : Reply

pub record NewUser : Type 0 where
  pub nickname : String
  pub public_key : String
  pub device_fingerprint : String
  pub password_hash : Option String

-- The collection of users: `User.create` returns the new id, `find_user` the id and the password
-- hash, if there is one, of the user that an id stands for.
pub record Users : Type 1 where
  pub Db : Type 0
  pub create : NewUser → Db → Answer (Db × String)
  pub find_user : (id : String) → Db → Answer (Option (String × Option String))

-- `bcrypt.hash` with a salt, and `bcrypt.compare`
pub record Bcrypt : Type 0 where
  pub hash : (password salt : String) → String
  pub compare : (password hash : String) → Bool

-- z.string().min(low)
unfoldable pub string_from : (low : ℕ) → Option Value → Option String
string_from low (some (text s)) = if leb low (units (codes s)) then some s else none
string_from low _ = none

pub record Registration : Type 0 where
  pub public_key : String
  pub device_fingerprint : String
  pub password : Option String
  pub nickname : Option String

-- `registerSchema`
unfoldable pub parse_registration : Input → Option Registration
parse_registration input = do
  d ← fields input
  key ← string_of 10 2048 (Dict.get "publicKey" d)
  device ← string_of 8 256 (Dict.get "deviceFingerprint" d)
  password ← optional (string_of 8 128) (Dict.get "password" d)
  nickname ← optional (string_of 2 64) (Dict.get "nickname" d)
  some (record {
    public_key = key;
    device_fingerprint = device;
    password = password;
    nickname = nickname;
  })

pub record Login : Type 0 where
  pub user_id : String
  pub password : String

-- `loginSchema`
unfoldable pub parse_login : Input → Option Login
parse_login input = do
  d ← fields input
  id ← string_from 1 (Dict.get "userId" d)
  password ← string_from 1 (Dict.get "password" d)
  some (record { user_id = id; password = password })

-- `refreshSchema`
unfoldable pub parse_refresh : Input → Option String
parse_refresh input = do d ← fields input; string_from 1 (Dict.get "refreshToken" d)

-- The identifiers that `uuidv4` gives the two tokens of an answer.
pub record Ids : Type 0 where
  pub access_jti : String
  pub refresh_jti : String

module _ (R : Redis) (J : Jwt) (access_expires_in refresh_expires_in : ℕ) where
  -- sign both tokens and store the second: the end of register, login and refresh
  unfoldable pub issue :
      (user_id : String) → Ids → (now : ℕ) → (String → String → Reply) → R.Db → R.Db × Reply
  issue user_id ids now reply db = elim (store_refresh_token R user_id ids.refresh_jti now db) [
    | failed ↦ (db, rejected server_error)
    | got after ↦ (
      after,
      reply (sign_access_token J access_expires_in refresh_expires_in user_id ids.access_jti now)
          (refresh_token J access_expires_in refresh_expires_in user_id ids.refresh_jti now),
    )
  ]

  -- Where a run of POST /refresh is: before the look-up of the token, before its revocation, or
  -- before the issue of new ones.
  pub data Refreshing : Type 0 where
    checking revoking issuing : TokenPayload → Refreshing
    replied : Reply → Refreshing

  abbrev of_kind : TokenPayload → Kind → Refreshing
  of_kind p access = replied (rejected wrong_type)
  of_kind p refresh = checking p

  unfoldable pub start_refresh : Input → (now : ℕ) → Refreshing
  start_refresh input now = elim (parse_refresh input) [
    | none ↦ replied (rejected validation_failed)
    | some token ↦ elim (J.verify token now) [
      | none ↦ replied (rejected invalid_token)
      | some p ↦ of_kind p p.kind
    ]
  ]

  unfoldable pub check_refresh : TokenPayload → (now : ℕ) → R.Db → Refreshing
  check_refresh p now db = elim (is_refresh_token_valid R p.sub p.jti now db) [
    | failed ↦ replied (rejected server_error)
    | got false ↦ replied (rejected revoked)
    | got true ↦ revoking p
  ]

  unfoldable pub revoke_refresh : TokenPayload → (now : ℕ) → R.Db → R.Db × Refreshing
  revoke_refresh p now db = elim (revoke_refresh_token R p.sub p.jti now db) [
    | failed ↦ (db, replied (rejected server_error))
    | got after ↦ (after, issuing p)
  ]

  abbrev answered : R.Db × Reply → R.Db × Refreshing
  answered (db, reply) = (db, replied reply)

  -- POST /refresh, from one `await` to the next
  unfoldable pub advance_refresh : Ids → (now : ℕ) → R.Db → Refreshing → R.Db × Refreshing
  advance_refresh ids now db (checking p) = (db, check_refresh p now db)
  advance_refresh ids now db (revoking p) = revoke_refresh p now db
  advance_refresh ids now db (issuing p) = answered (issue p.sub ids now tokens db)
  advance_refresh ids now db (replied reply) = (db, replied reply)

  abbrev pub is_refresh : Option TokenPayload → Option TokenPayload
  is_refresh none = none
  is_refresh (some p) = elim p.kind [ access ↦ none | refresh ↦ some p ]

  -- what POST /logout does with a refresh token; an error is ignored
  unfoldable pub drop_refresh : (token : Option String) (now later : ℕ) → R.Db → R.Db
  drop_refresh none now later db = db
  drop_refresh (some token) now later db =
      if token === "" then db else elim (is_refresh (J.verify token now)) [
        | none ↦ db
        | some p ↦ or_same db (revoke_refresh_token R p.sub p.jti later db)
      ]

  -- POST /logout of a request whose access token has the identifier
  unfoldable pub logout :
      (token_jti : String) (refresh_token : Option String) (now later last : ℕ)
      → R.Db
      → R.Db × Reply
  logout token_jti refresh_token now later last db = elim (blacklist_token R token_jti 900 now db) [
    | failed ↦ (db, rejected server_error)
    | got after ↦ (drop_refresh refresh_token later last after, logged_out)
  ]

  module _ (U : Users) (B : Bcrypt) (is_valid_id : String → Bool) where
    abbrev pub compared :
        (password : String)
        → (user : String × Option String) → Ids
        → (now : ℕ) → R.Db
        → R.Db × Reply
    compared password (id, none) ids now db = (db, rejected invalid_credentials)
    compared password (id, some hash) ids now db =
        if hash === ""
        then (db, rejected invalid_credentials)
        else if B.compare password hash
        then issue id ids now tokens db
        else (db, rejected invalid_credentials)

    -- POST /login
    unfoldable pub login : Input → Ids → (now : ℕ) → U.Db → R.Db → R.Db × Reply
    login input ids now users db = elim (parse_login input) [
      | none ↦ (db, rejected validation_failed)
      | some request ↦
          if is_valid_id request.user_id
          then elim (U.find_user request.user_id users) [
            | failed ↦ (db, rejected server_error)
            | got none ↦ (db, rejected invalid_credentials)
            | got (some user) ↦ compared request.password user ids now db
          ]
          else (db, rejected invalid_credentials)
    ]

    abbrev or_generated : Option String → String → String
    or_generated none generated = generated
    or_generated (some nickname) generated = nickname

    -- `if (password)`; the schema lets no empty password through
    abbrev hashed : Option String → (salt : String) → Option String
    hashed none salt = none
    hashed (some password) salt = some (B.hash password salt)

    -- POST /register; the nickname of `generateNickname` is an argument
    unfoldable pub register :
        Input → (generated salt : String) → Ids → (now : ℕ) → U.Db → R.Db → U.Db × R.Db × Reply
    register input generated salt ids now users db = elim (parse_registration input) [
      | none ↦ (users, db, rejected validation_failed)
      | some r ↦
          let nickname = or_generated r.nickname generated in
          elim (U.create
            (record {
              nickname = nickname;
              public_key = r.public_key;
              device_fingerprint = r.device_fingerprint;
              password_hash = hashed r.password salt;
            })
            users) [
              | failed ↦ (users, db, rejected server_error)
              | got (after, id) ↦
                  let issued = issue id ids now (registered id nickname) db in
                  (after, issued.0, issued.1)
            ]
    ]
