-- ===== src/Agents/CryptoWatchdog/Keys.antt =====
-- Which public keys pass.
use pm_chat.Base.{
  String, ◌≡◌, ◌≢◌, ◌↔◌, refl, subst, true, false, Option, none, some, arith, eq_iff, is_empty,
  is_empty-push_if, eq_refl,
}
use pm_chat.Json.{Json, null, text, object, Fields, end, get_field, is_truthy}
use pm_chat.Agents.CryptoWatchdog.{differs, no_text, errors_of, validate_public_key}

-- A key on the curve P-256 with both coordinates, and without private material.
pub record IsPublicKey (key : Fields) : Type 0 where
  kty : get_field "kty" key ≡ some (text "EC")
  crv : get_field "crv" key ≡ some (text "P-256")
  x : (s : String) × (get_field "x" key ≡ some (text s)) × (s ≢ "")
  y : (s : String) × (get_field "y" key ≡ some (text s)) × (s ≢ "")
  d : is_truthy (get_field "d" key) ≡ false

differs-false : (word : String) (o : Option Json) → differs word o ≡ false → o ≡ some (text word)
differs-false word none h = absurd (ground arith)
differs-false word (some (text s)) h = ground (arith, eq_iff s word)
differs-false word (some _) h = absurd (ground arith)

no_text-false :
    (o : Option Json) → no_text o ≡ false → (s : String) × (o ≡ some (text s)) × (s ≢ "")
no_text-false none h = absurd (ground arith)
no_text-false (some (text s)) h = (s, refl, λ e. ground (arith, eq_iff s ""))
no_text-false (some _) h = absurd (ground arith)

differs_self : (word : String) → differs word (some (text word)) ≡ false
differs_self word = ground (arith, eq_refl word)

errors_of-IsPublicKey : (key : Fields) → (is_empty (errors_of key) ≡ true) ↔ IsPublicKey key
unfolding errors_of
errors_of-IsPublicKey key = (
  λ h.
      let (kty, h1) = (is_empty-push_if _ _ _).0 h in
      let (crv, h2) = (is_empty-push_if _ _ _).0 h1 in
      let (x, h3) = (is_empty-push_if _ _ _).0 h2 in
      let (y, h4) = (is_empty-push_if _ _ _).0 h3 in
      let (d, h5) = (is_empty-push_if _ _ _).0 h4 in
      record {
        kty = differs-false "EC" _ kty;
        crv = differs-false "P-256" _ crv;
        x = no_text-false _ x;
        y = no_text-false _ y;
        d = d;
      },
  λ k.
      let (x, at_x, some_x) = k.x in
      let (y, at_y, some_y) = k.y in
      rw (k.kty, k.crv, at_x, at_y, k.d) (ground (arith, eq_iff x "", eq_iff y "")),
)

no_object_invalid : is_empty (errors_of end) ≡ false
unfolding errors_of get_field
no_object_invalid = refl

-- `validatePublicKey` accepts exactly the texts that parse as an object of the kind EC on the curve
-- P-256 with two coordinates that are texts and not empty, and without private material (a field
-- d that is truthy).
validate_public_key-IsPublicKey :
    (parsed : Option Json)
    → ((validate_public_key parsed).valid ≡ true)
      ↔ ((key : Fields) × (parsed ≡ some (object key)) × IsPublicKey key)
unfolding validate_public_key
validate_public_key-IsPublicKey none =
    (λ h. absurd (ground arith), λ (key, at, k). absurd (ground arith))
validate_public_key-IsPublicKey (some (object key)) = (
  λ h. (key, refl, (errors_of-IsPublicKey key).0 h),
  λ (other, at, k).
      (errors_of-IsPublicKey key).1 (let same : other ≡ key = cc in subst IsPublicKey same k),
)
validate_public_key-IsPublicKey (some null) =
    (λ h. absurd (ground arith), λ (key, at, k). absurd (ground arith))
validate_public_key-IsPublicKey (some _) =
    (λ h. absurd (ground (arith, no_object_invalid)), λ (key, at, k). absurd (ground arith))
