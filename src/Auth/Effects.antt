-- ===== src/Auth/Effects.antt =====
-- What the handlers of routes/auth.ts write to Redis, and what such writes leave alone.
use pm_chat.Base.{
  ℕ, ◌+◌, ◌≤◌, ◌<◌, ◌≡◌, ◌≢◌, refl, ◌⊎◌, inl, inr, String, none, some, List, [], ◌∷◌, arith, eq_iff,
  ◌===◌, All, Bool-cases, ap, sym,
}
use Prim.Native.String
use pm_chat.Texts.{head, head-append, append-injective}
use pm_chat.Services.{Answer-cases, or_same}
use pm_chat.Services.Redis.{Redis}
use pm_chat.Auth.{
  Kind, access, refresh, blacklist_key, refresh_key, refresh_token_ttl, blacklist_token,
  revoke_refresh_token, store_refresh_token,
}

-- What the handlers write to Redis.
pub data Effect : Type 0 where
  blacklists : (jti : String) (ttl_seconds now : ℕ) → Effect
  stores revokes : (user_id jti : String) (now : ℕ) → Effect

blacklist_key-differ : (i j : String) → i ≢ j → blacklist_key i ≢ blacklist_key j
blacklist_key-differ i j h e = h (append-injective "blacklist:" i j e)

keys-differ : (u i j : String) → refresh_key u i ≢ blacklist_key j
keys-differ u i j e = ground (
  arith,
  ap head e,
  head-append "refresh:" (String.◌++◌ u (String.◌++◌ ":" i)) (omega arith),
  head-append "blacklist:" j (omega arith),
)

pub kind_cases : (k : Kind) → (k ≡ access) ⊎ (k ≡ refresh)
kind_cases access = inl refl
kind_cases refresh = inr refl

-- The effect stores no token under the key.
abbrev pub IsElsewhere : (key : String) → Effect → Type 0
IsElsewhere key (stores user_id jti now) = refresh_key user_id jti ≢ key
IsElsewhere key _ = Unit

module _ (R : Redis) where
  unfoldable pub effect : R.Db → Effect → R.Db
  effect db (blacklists jti ttl_seconds now) = or_same db (blacklist_token R jti ttl_seconds now db)
  effect db (stores user_id jti now) = or_same db (store_refresh_token R user_id jti now db)
  effect db (revokes user_id jti now) = or_same db (revoke_refresh_token R user_id jti now db)

  unfoldable pub effects : R.Db → List Effect → R.Db
  effects db [] = db
  effects db (e ∷ es) = effects (effect db e) es

  abbrev pub Listed : (jti : String) (t : ℕ) → R.Db → Type 0
  Listed jti t db = R.at db (blacklist_key jti) t ≡ some "1"

  -- The effect is no earlier than `since`, and blacklists for 15 minutes as the routes do.
  abbrev pub IsLater : (since : ℕ) → Effect → Type 0
  IsLater since (blacklists jti ttl_seconds now) = (since ≤ now) × (ttl_seconds ≡ 900)
  IsLater since (stores user_id jti now) = since ≤ now
  IsLater since (revokes user_id jti now) = since ≤ now

  pub revoke-Listed :
      (user_id i j : String) (now t : ℕ) (db : R.Db)
      → Listed j t db
      → Listed j t (or_same db (revoke_refresh_token R user_id i now db))
  unfolding revoke_refresh_token
  revoke-Listed u i j now t db h = elim (Answer-cases (R.del (refresh_key u i) now db)) [
    | inl e ↦ ground arith
    | inr (db', e) ↦
        ground (
          arith,
          R.del_other (refresh_key u i) now db db' (blacklist_key j) t e (keys-differ u i j),
        )
  ]

  effect-Listed :
      (j : String) (since t : ℕ) (db : R.Db) (e : Effect)
      → IsLater since e
      → t < since + 900_000
      → Listed j t db
      → Listed j t (effect db e)
  unfolding effect blacklist_token store_refresh_token
  effect-Listed j since t db (revokes u i now) l soon h = revoke-Listed u i j now t db h
  effect-Listed j since t db (stores u i now) l soon h =
      elim (Answer-cases (R.setex (refresh_key u i) refresh_token_ttl "1" now db)) [
        | inl e ↦ ground arith
        | inr (db', e) ↦ ground (
          arith,
          R.setex_other (refresh_key u i) refresh_token_ttl "1" now db db' (blacklist_key j) t e
              (keys-differ u i j),
        )
      ]
  effect-Listed j since t db (blacklists i ttl now) (l, fixed) soon h =
      elim (Answer-cases (R.setex (blacklist_key i) ttl "1" now db)) [
        | inl e ↦ ground arith
        | inr (db', e) ↦ elim (Bool-cases (i === j)) [
          | inl same ↦ ground (
            arith,
            ap blacklist_key ((eq_iff i j).0 same),
            R.setex_self (blacklist_key i) ttl "1" now db db' t e (omega arith),
          )
          | inr other ↦ ground (
            arith,
            R.setex_other (blacklist_key i) ttl "1" now db db' (blacklist_key j) t e
                (blacklist_key-differ i j (λ q. ground (arith, eq_iff i j))),
          )
        ]
      ]

  pub effects-Listed :
      (j : String) (since t : ℕ) (es : List Effect) (db : R.Db)
      → All (IsLater since) es
      → t < since + 900_000
      → Listed j t db
      → Listed j t (effects db es)
  unfolding effects
  effects-Listed j since t [] db _ soon h = h
  effects-Listed j since t (e ∷ es) db (l, ls) soon h =
      effects-Listed j since t es (effect db e) ls soon (effect-Listed j since t db e l soon h)

module _ (R : Redis) where
  abbrev pub Absent : (key : String) (t : ℕ) → R.Db → Type 0
  Absent key t db = R.at db key t ≡ none

  effect-Absent :
      (u j : String) (t : ℕ) (db : R.Db) (e : Effect)
      → IsElsewhere (refresh_key u j) e
      → Absent (refresh_key u j) t db
      → Absent (refresh_key u j) t (effect R db e)
  unfolding effect blacklist_token store_refresh_token revoke_refresh_token
  effect-Absent u j t db (blacklists i ttl now) apart h =
      elim (Answer-cases (R.setex (blacklist_key i) ttl "1" now db)) [
        | inl e ↦ ground arith
        | inr (db', e) ↦ ground (
          arith,
          R.setex_other (blacklist_key i) ttl "1" now db db' (refresh_key u j) t e
              (λ q. keys-differ u j i (sym q)),
        )
      ]
  effect-Absent u j t db (stores v i now) apart h =
      elim (Answer-cases (R.setex (refresh_key v i) refresh_token_ttl "1" now db)) [
        | inl e ↦ ground arith
        | inr (db', e) ↦ ground (
          arith,
          R.setex_other (refresh_key v i) refresh_token_ttl "1" now db db' (refresh_key u j) t e
              apart,
        )
      ]
  effect-Absent u j t db (revokes v i now) apart h =
      elim (Answer-cases (R.del (refresh_key v i) now db)) [
        | inl e ↦ ground arith
        | inr (db', e) ↦ elim (Bool-cases (refresh_key v i === refresh_key u j)) [
          | inl same ↦ ground (
            arith,
            (eq_iff (refresh_key v i) (refresh_key u j)).0 same,
            R.del_self (refresh_key v i) now db db' t e,
          )
          | inr other ↦ ground (
            arith,
            R.del_other (refresh_key v i) now db db' (refresh_key u j) t e
                (λ q. ground (arith, eq_iff (refresh_key v i) (refresh_key u j))),
          )
        ]
      ]

  pub effects-Absent :
      (u j : String) (t : ℕ) (es : List Effect) (db : R.Db)
      → All (IsElsewhere (refresh_key u j)) es
      → Absent (refresh_key u j) t db
      → Absent (refresh_key u j) t (effects R db es)
  unfolding effects
  effects-Absent u j t [] db _ h = h
  effects-Absent u j t (e ∷ es) db (l, ls) h =
      effects-Absent u j t es (effect R db e) ls (effect-Absent u j t db e l h)
