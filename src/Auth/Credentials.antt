-- ===== src/Auth/Credentials.antt =====
-- What a login proves, and what its tokens are good for.
use pm_chat.Base.{
  ℕ, ◌+◌, ◌*◌, ◌≤◌, ◌<◌, ◌≡◌, ◌≢◌, inl, inr, String, Bool, true, none, some, arith, eq_iff, ◌===◌,
  Bool-cases, Option-cases, subst, sym,
}
use pm_chat.Schema.{Input}
use pm_chat.Services.{Answer-cases, got}
use pm_chat.Services.Redis.{Redis}
use pm_chat.Auth.{
  access, refresh, Jwt, refresh_key, refresh_token_ttl, refresh_token, store_refresh_token,
  sign_access_token,
}
use pm_chat.Auth.Routes.{tokens, Users, Bcrypt, Login, parse_login, Ids, issue, login}

module _ (R : Redis) (J : Jwt) (access_expires_in refresh_expires_in : ℕ) where
  -- Issued tokens: each is verified until a second before its end, the first as an access token and
  -- the second as a refresh token, under whose identifier it is on record for a week.
  pub record AreIssued (user_id : String) (ids : Ids) (now : ℕ) (a r : String) (db' : R.Db)
      : Type 0 where
    verified :
        (t : ℕ)
        → now ≤ t
        → t + 1000 ≤ now + access_expires_in * 1000
        → J.verify a t ≡ some (record { sub = user_id; jti = ids.access_jti; kind = access })
    renews :
        (t : ℕ)
        → now ≤ t
        → t + 1000 ≤ now + refresh_expires_in * 1000
        → J.verify r t ≡ some (record { sub = user_id; jti = ids.refresh_jti; kind = refresh })
    kept :
        (t : ℕ)
        → t < now + 604_800_000
        → R.at db' (refresh_key user_id ids.refresh_jti) t ≡ some "1"

  issue-AreIssued :
      (user_id : String) (ids : Ids) (now : ℕ) (db : R.Db) (a r : String)
      → (issue R J access_expires_in refresh_expires_in user_id ids now tokens db).1 ≡ tokens a r
      → AreIssued user_id ids now a r
          (issue R J access_expires_in refresh_expires_in user_id ids now tokens db).0
  unfolding issue store_refresh_token sign_access_token refresh_token
  issue-AreIssued u ids now db a r done =
      elim (Answer-cases (R.setex (refresh_key u ids.refresh_jti) refresh_token_ttl "1" now db)) [
        | inl down ↦ absurd (ground arith)
        | inr (db', e) ↦ record {
          verified = λ t h k. ground (
            arith,
            J.verify_sign (record { sub = u; jti = ids.access_jti; kind = access })
                access_expires_in now t h k,
          );
          renews = λ t h k. ground (
            arith,
            J.verify_sign (record { sub = u; jti = ids.refresh_jti; kind = refresh })
                refresh_expires_in now t h k,
          );
          kept = λ t h. ground (
            arith,
            R.setex_self (refresh_key u ids.refresh_jti) refresh_token_ttl "1" now db db' t e
                (omega arith),
          );
        }
      ]

module _ (R : Redis) (J : Jwt) (access_expires_in refresh_expires_in : ℕ) (U : Users) (B : Bcrypt)
    (is_valid_id : String → Bool) where
  -- A login is answered with tokens only if the request is well formed, its id is of a user with a
  -- password, and bcrypt finds that the password fits the user's hash. The tokens are then that
  -- user's: the first is verified as an access token and the second as a refresh token, each until a
  -- second before its end, and the identifier that the second has is on record for a week.
  pub login-AreIssued :
      (input : Input) (ids : Ids) (now : ℕ) (users : U.Db) (db : R.Db) (a r : String)
      → (login R J access_expires_in refresh_expires_in U B is_valid_id input ids now users db).1
        ≡ tokens a r
      → (request : Login) × (id : String) × (hash : String) × (parse_login input ≡ some request)
        × (is_valid_id request.user_id ≡ true)
        × (U.find_user request.user_id users ≡ got (some (id, some hash)))
        × (hash ≢ "")
        × (B.compare request.password hash ≡ true)
        × AreIssued R J access_expires_in refresh_expires_in id ids now a r
            (login R J access_expires_in refresh_expires_in U B is_valid_id input ids now users
              db).0
  unfolding login
  login-AreIssued input ids now users db a r done = elim (Option-cases (parse_login input)) [
    | inl bad ↦ absurd (ground arith)
    | inr (q, parsed) ↦ elim (Bool-cases (is_valid_id q.user_id)) [
      | inr malformed ↦ absurd (ground arith)
      | inl well_formed ↦ elim (Answer-cases (U.find_user q.user_id users)) [
        | inl down ↦ absurd (ground arith)
        | inr (none, e) ↦ absurd (ground arith)
        | inr (some (id, none), e) ↦ absurd (ground arith)
        | inr (some (id, some hash), e) ↦ elim (Bool-cases (hash === "")) [
          | inl empty ↦ absurd (ground arith)
          | inr filled ↦ elim (Bool-cases (B.compare q.password hash)) [
            | inr wrong ↦ absurd (ground arith)
            | inl fits ↦
                let same : login R J access_expires_in refresh_expires_in U B is_valid_id input ids
                      now users db
                    ≡ issue R J access_expires_in refresh_expires_in id ids now tokens db =
                  ground arith in
                (
                  q,
                  id,
                  hash,
                  parsed,
                  well_formed,
                  e,
                  (λ h. ground (arith, eq_iff hash "")),
                  fits,
                  subst (λ x. AreIssued R J access_expires_in refresh_expires_in id ids now a r x.0)
                      (sym same)
                      (issue-AreIssued R J access_expires_in refresh_expires_in id ids now db a r
                        (ground (arith, same))),
                )
          ]
        ]
      ]
    ]
  ]
