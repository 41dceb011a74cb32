-- ===== src/Auth/Revocation.antt =====
-- Tokens that are revoked stay so, whatever the handlers write to Redis afterwards and in whatever
-- order they take turns.
use pm_chat.Base.{
  ℕ, ◌+◌, ◌≤◌, ◌<◌, ◌≡◌, ◌≢◌, ◌⊎◌, inl, inr, String, Option, none, some, List, arith, ◌===◌, ltb,
  All, Bool-cases, Option-cases,
}
use pm_chat.Services.{Answer-cases}
use pm_chat.Services.Redis.{Redis}
use pm_chat.Auth.{
  access, TokenPayload, Jwt, blacklist_key, refresh_key, blacklist_token, is_token_blacklisted,
  revoke_refresh_token, is_refresh_token_valid, sign_access_token, accepted, authenticate,
}
use pm_chat.Auth.Routes.{
  rejected, revoked, server_error, logged_out, issuing, replied, check_refresh, revoke_refresh,
  drop_refresh, logout, is_refresh,
}
use pm_chat.Auth.Effects.{
  Effect, effects, Listed, IsLater, IsElsewhere, kind_cases, revoke-Listed, effects-Listed,
  effects-Absent,
}

module _ (R : Redis) (J : Jwt) (access_expires_in refresh_expires_in : ℕ) where
  drop_refresh-Listed :
      (j : String) (token : Option String) (now later t : ℕ) (db : R.Db)
      → Listed R j t db
      → Listed R j t (drop_refresh R J access_expires_in refresh_expires_in token now later db)
  unfolding drop_refresh
  drop_refresh-Listed j none now later t db h = h
  drop_refresh-Listed j (some token) now later t db h = elim (Bool-cases (token === "")) [
    | inl empty ↦ ground (arith, h)
    | inr filled ↦
        elim (Option-cases
          (is_refresh R J access_expires_in refresh_expires_in (J.verify token now))) [
            | inl other ↦ ground (arith, h)
            | inr (p, e) ↦ ground (arith, revoke-Listed R p.sub p.jti j later t db h)
          ]
  ]

  logout-Listed :
      (j : String) (token : Option String) (now later last t : ℕ) (db : R.Db)
      → (logout R J access_expires_in refresh_expires_in j token now later last db).1 ≡ logged_out
      → t < now + 900_000
      → Listed R j t (logout R J access_expires_in refresh_expires_in j token now later last db).0
  unfolding logout blacklist_token
  logout-Listed j token now later last t db done soon =
      elim (Answer-cases (R.setex (blacklist_key j) 900 "1" now db)) [
        | inl e ↦ absurd (ground arith)
        | inr (db', e) ↦ ground (
          arith,
          drop_refresh-Listed j token later last t db'
              (R.setex_self (blacklist_key j) 900 "1" now db db' t e (omega arith)),
        )
      ]

  unverified :
      (token : String) (now later : ℕ) (db : R.Db) (u i : String)
      → J.verify token now ≡ none
      → authenticate R J token now later db ≢ accepted u i
  unfolding authenticate
  unverified token now later db u i bad e = ground (arith, bad, e)

  Listed-refused :
      (token : String) (p : TokenPayload) (now later : ℕ) (db : R.Db) (u i : String)
      → (J.verify token now ≡ none) ⊎ (J.verify token now ≡ some p)
      → Listed R p.jti later db
      → authenticate R J token now later db ≢ accepted u i
  unfolding authenticate is_token_blacklisted
  Listed-refused token p now later db u i (inl bad) h e = ground arith
  Listed-refused token p now later db u i (inr good) h e = elim (kind_cases p.kind) [
    | inr other ↦ ground (arith, good, e)
    | inl right ↦ elim (Answer-cases (R.get (blacklist_key p.jti) later db)) [
      | inl down ↦ ground (arith, good, e)
      | inr (o, found) ↦ ground (arith, good, e, R.get_lem (blacklist_key p.jti) later db o found)
    ]
  ]

  -- After a logout that was answered, with an access token that lives for 15 minutes at most, the
  -- token is refused from then on, whatever the other handlers write in the meantime and even if
  -- Redis fails: at `t` it is verified and at `t'` looked up on the blacklist, where the look-up
  -- takes no longer than the token had been in use when it was logged out.
  pub logout-lasts :
      (user_id jti : String) (token : Option String) (issued now later last t t' : ℕ) (db : R.Db)
      (es : List Effect) (u i : String)
      → access_expires_in ≤ 900
      → (logout R J access_expires_in refresh_expires_in jti token now later last db).1 ≡ logged_out
      → All (IsLater R now) es
      → t' + issued ≤ t + now
      → authenticate R J
          (sign_access_token J access_expires_in refresh_expires_in user_id jti issued)
          t
          t'
          (effects R
            (logout R J access_expires_in refresh_expires_in jti token now later last db).0
            es)
        ≢ accepted u i
  unfolding sign_access_token
  logout-lasts v j token issued now later last t t' db es u i short done ls prompt =
      elim (Bool-cases (ltb t' (now + 900_000))) [
        | inl soon ↦ Listed-refused _ p t t' _ u i (J.verify_cases p access_expires_in issued t) (
            effects-Listed R j now t' es _ ls (ground arith)
              (logout-Listed j token now later last t' db done (ground arith)))
        | inr over ↦
            unverified _ t t' _ u i (J.verify_expired p access_expires_in issued t (ground arith))
      ]
    where
      p : TokenPayload
      p = record { sub = v; jti = j; kind = access }

  -- Once a refresh token has been revoked, no run of POST /refresh that looks it up afterwards goes
  -- on to issue tokens, whatever the handlers write in the meantime, as long as no other token is
  -- stored under its key.
  pub revoked-refused :
      (p : TokenPayload) (now t : ℕ) (db : R.Db) (es : List Effect)
      → (revoke_refresh R J access_expires_in refresh_expires_in p now db).1 ≡ issuing p
      → All (IsElsewhere (refresh_key p.sub p.jti)) es
      → (let db' =
            effects R (revoke_refresh R J access_expires_in refresh_expires_in p now db).0 es in
          let next = check_refresh R J access_expires_in refresh_expires_in p t db' in
          (next ≡ replied (rejected revoked)) ⊎ (next ≡ replied (rejected server_error)))
  unfolding revoke_refresh check_refresh is_refresh_token_valid revoke_refresh_token
  revoked-refused p now t db es done ls =
      elim (Answer-cases (R.del (refresh_key p.sub p.jti) now db)) [
        | inl down ↦ absurd (ground arith)
        | inr (db', e) ↦
            let gone =
              effects-Absent R p.sub p.jti t es db' ls
                (R.del_self (refresh_key p.sub p.jti) now db db' t e) in
            elim (Answer-cases (R.get (refresh_key p.sub p.jti) t (effects R db' es))) [
              | inl down ↦ inr (ground arith)
              | inr (o, found) ↦ inl (
                  ground
                    (arith, R.get_lem (refresh_key p.sub p.jti) t (effects R db' es) o found, gone))
            ]
      ]
