-- ===== src/Auth/PlainTokens.antt =====
-- Tokens that anyone can read: an instance of `Jwt` that shows that its laws can hold.
use Prim.Native.Char.{Char, code}
use pm_chat.Base.{
  ℕ, zero, suc, ◌+◌, ◌*◌, ◌≤◌, ◌≡◌, refl, ◌⊎◌, inl, inr, String, Option, none, some, arith,
  if◌then◌else◌, ltb, ◌==◌, Bool-cases, ap,
}
use pm_chat.Schema.{◌>>=◌}
use pm_chat.Auth.{Kind, access, refresh, TokenPayload, Jwt}

-- A text, each character after a mark, and what comes after it.
unfoldable pub put_text : String → String → String
put_text String.[] rest = String.◌∷◌ "." rest
put_text (String.◌∷◌ c s) rest = String.◌∷◌ "-" (String.◌∷◌ c (put_text s rest))

abbrev before : Char → Option (String × String) → Option (String × String)
before c none = none
before c (some (s, rest)) = some (String.◌∷◌ c s, rest)

unfoldable pub get_text : String → Option (String × String)
get_text String.[] = none
get_text (String.◌∷◌ m String.[]) = if code m == b'.' then some ("", "") else none
get_text (String.◌∷◌ m (String.◌∷◌ c rest)) =
    let more = get_text rest in
    if code m == b'.' then some ("", String.◌∷◌ c rest) else before c more

get_text-put_text : (s rest : String) → get_text (put_text s rest) ≡ some (s, rest)
unfolding get_text put_text
get_text-put_text String.[] String.[] = refl
get_text-put_text String.[] (String.◌∷◌ c rest) = refl
get_text-put_text (String.◌∷◌ c s) rest = ground (arith, get_text-put_text s rest)

-- A number, in strokes.
unfoldable pub put_number : ℕ → String → String
put_number zero rest = String.◌∷◌ "." rest
put_number (suc n) rest = String.◌∷◌ "-" (put_number n rest)

abbrev one_more : Option (ℕ × String) → Option (ℕ × String)
one_more none = none
one_more (some (n, rest)) = some (suc n, rest)

unfoldable pub get_number : String → Option (ℕ × String)
get_number String.[] = none
get_number (String.◌∷◌ m rest) =
    let more = get_number rest in if code m == b'.' then some (0, rest) else one_more more

get_number-put_number : (n : ℕ) (rest : String) → get_number (put_number n rest) ≡ some (n, rest)
unfolding get_number put_number
get_number-put_number zero rest = refl
get_number-put_number (suc n) rest = ground (arith, get_number-put_number n rest)

abbrev kind_number : Kind → ℕ
kind_number access = 0
kind_number refresh = 1

abbrev number_kind : ℕ → Kind
number_kind zero = access
number_kind (suc n) = refresh

unfoldable pub write : TokenPayload → (end : ℕ) → String
write p end = put_number (kind_number p.kind) (put_text p.sub (put_text p.jti (put_number end "")))

unfoldable pub read : String → Option (TokenPayload × ℕ)
read s = do
  (kind, s1) ← get_number s
  (sub, s2) ← get_text s1
  (jti, s3) ← get_text s2
  (end, s4) ← get_number s3
  some (record { sub = sub; jti = jti; kind = number_kind kind }, end)

number_kind-kind_number : (k : Kind) → number_kind (kind_number k) ≡ k
number_kind-kind_number access = refl
number_kind-kind_number refresh = refl

read-write : (p : TokenPayload) (end : ℕ) → read (write p end) ≡ some (p, end)
unfolding read write
read-write p end =
    rw
      (
        get_number-put_number (kind_number p.kind)
            (put_text p.sub (put_text p.jti (put_number end ""))),
        get_text-put_text p.sub (put_text p.jti (put_number end "")),
        get_text-put_text p.jti (put_number end ""),
        get_number-put_number end "",
      )
      (ap (λ k. some (record { sub = p.sub; jti = p.jti; kind = k }, end))
        (number_kind-kind_number p.kind))

-- A token holds until its end.
abbrev pub until_end : (now : ℕ) → Option (TokenPayload × ℕ) → Option TokenPayload
until_end now none = none
until_end now (some (p, end)) = if ltb now end then some p else none

verify_written :
    (p : TokenPayload) (end now : ℕ)
    → until_end now (read (write p end)) ≡ (if ltb now end then some p else none)
verify_written p end now = ap (until_end now) (read-write p end)

abbrev pub plain_verify : (token : String) (now : ℕ) → Option TokenPayload
plain_verify token now = until_end now (read token)

abbrev pub plain_sign : TokenPayload → (expires_in now : ℕ) → String
plain_sign p expires_in now = write p (now + expires_in * 1000)

pub plain_holds :
    (p : TokenPayload) (expires_in issued now : ℕ)
    → issued ≤ now
    → now + 1000 ≤ issued + expires_in * 1000
    → plain_verify (plain_sign p expires_in issued) now ≡ some p
plain_holds p expires_in issued now h k =
    ground (arith, verify_written p (issued + expires_in * 1000) now)

pub plain_cases :
    (p : TokenPayload) (expires_in issued now : ℕ)
    → (plain_verify (plain_sign p expires_in issued) now ≡ none)
      ⊎ (plain_verify (plain_sign p expires_in issued) now ≡ some p)
plain_cases p expires_in issued now = elim (Bool-cases (ltb now (issued + expires_in * 1000))) [
  | inl soon ↦ inr (ground (arith, verify_written p (issued + expires_in * 1000) now))
  | inr over ↦ inl (ground (arith, verify_written p (issued + expires_in * 1000) now))
]

pub plain_expires :
    (p : TokenPayload) (expires_in issued now : ℕ)
    → issued + expires_in * 1000 ≤ now
    → plain_verify (plain_sign p expires_in issued) now ≡ none
plain_expires p expires_in issued now h =
    ground (arith, verify_written p (issued + expires_in * 1000) now)

abbrev pub plain_jwt : Jwt
plain_jwt = record {
  sign = plain_sign;
  verify = plain_verify;
  verify_sign = plain_holds;
  verify_cases = plain_cases;
  verify_expired = plain_expires;
}
