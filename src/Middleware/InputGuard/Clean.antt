-- ===== src/Middleware/InputGuard/Clean.antt =====
-- What is left after the NUL bytes are taken out.
use Prim.Native.Char.{code}
use pm_chat.Base.{
  String, ◌≡◌, refl, ap, Bool, true, ◌&&◌, not, Option, none, some, arith, ◌==◌, Bool-cases, inl,
  inr,
}
use pm_chat.Json.{
  Json, null, boolean, zero, number, text, array, object, Items, nil, cons, Fields, end, field,
  get_field,
}
use pm_chat.Middleware.InputGuard.{strip_text, strip_nul_bytes, strip_items, strip_fields}

-- no character of the text is NUL
unfoldable pub is_clean_text : String → Bool
is_clean_text String.[] = true
is_clean_text (String.◌∷◌ c s) = not (code c == 0) && is_clean_text s

-- no text in the value has a NUL
unfoldable mutual
  pub is_clean : Json → Bool
  is_clean null = true
  is_clean (boolean b) = true
  is_clean zero = true
  is_clean (number digits) = true
  is_clean (text s) = is_clean_text s
  is_clean (array items) = is_clean_items items
  is_clean (object fields) = is_clean_fields fields

  pub is_clean_items : Items → Bool
  is_clean_items nil = true
  is_clean_items (cons item rest) = is_clean item && is_clean_items rest

  pub is_clean_fields : Fields → Bool
  is_clean_fields end = true
  is_clean_fields (field key value rest) = is_clean value && is_clean_fields rest

strip_text-is_clean : (s : String) → is_clean_text (strip_text s) ≡ true
unfolding is_clean_text strip_text
strip_text-is_clean String.[] = refl
strip_text-is_clean (String.◌∷◌ c s) = elim (Bool-cases (code c == 0)) [
  | inl nul ↦ rw nul (strip_text-is_clean s)
  | inr other ↦ rw other (ground (arith, strip_text-is_clean s))
]

strip_text-same : (s : String) → is_clean_text s ≡ true → strip_text s ≡ s
unfolding is_clean_text strip_text
strip_text-same String.[] h = refl
strip_text-same (String.◌∷◌ c s) h = elim (Bool-cases (code c == 0)) [
  | inl nul ↦ absurd (ground arith)
  | inr other ↦ rw other (ap (String.◌∷◌ c) (strip_text-same s (ground arith)))
]

mutual
  unfolding is_clean strip_nul_bytes

  stripped : (v : Json) → is_clean (strip_nul_bytes v) ≡ true
  stripped null = refl
  stripped (boolean b) = refl
  stripped zero = refl
  stripped (number digits) = refl
  stripped (text s) = strip_text-is_clean s
  stripped (array items) = stripped_items items
  stripped (object fields) = stripped_fields fields

  stripped_items : (xs : Items) → is_clean_items (strip_items xs) ≡ true
  stripped_items nil = refl
  stripped_items (cons item rest) = ground (arith, stripped item, stripped_items rest)

  stripped_fields : (fs : Fields) → is_clean_fields (strip_fields fs) ≡ true
  stripped_fields end = refl
  stripped_fields (field key value rest) = ground (arith, stripped value, stripped_fields rest)

mutual
  unfolding is_clean strip_nul_bytes

  unchanged : (v : Json) → is_clean v ≡ true → strip_nul_bytes v ≡ v
  unchanged null h = refl
  unchanged (boolean b) h = refl
  unchanged zero h = refl
  unchanged (number digits) h = refl
  unchanged (text s) h = ap text (strip_text-same s h)
  unchanged (array items) h = ap array (unchanged_items items h)
  unchanged (object fields) h = ap object (unchanged_fields fields h)

  unchanged_items : (xs : Items) → is_clean_items xs ≡ true → strip_items xs ≡ xs
  unchanged_items nil h = refl
  unchanged_items (cons item rest) h =
      ground (arith, unchanged item (ground arith), unchanged_items rest (ground arith))

  unchanged_fields : (fs : Fields) → is_clean_fields fs ≡ true → strip_fields fs ≡ fs
  unchanged_fields end h = refl
  unchanged_fields (field key value rest) h =
      ground (arith, unchanged value (ground arith), unchanged_fields rest (ground arith))

abbrev pub strip_found : Option Json → Option Json
strip_found none = none
strip_found (some v) = some (strip_nul_bytes v)

get_field-strip :
    (name : String) (fs : Fields)
    → get_field name (strip_fields fs) ≡ strip_found (get_field name fs)
unfolding get_field strip_nul_bytes
get_field-strip name end = refl
get_field-strip name (field key value rest) = ground (arith, get_field-strip name rest)

-- After the NUL bytes are taken out of an object, no text in it at any depth has one; each field
-- holds what it held, stripped; and an object without NUL bytes is not changed.
pub strip_fields-is_clean :
    (fields : Fields)
    → (is_clean (strip_nul_bytes (object fields)) ≡ true)
      × ((name : String)
          → get_field name (strip_fields fields) ≡ strip_found (get_field name fields))
      × (is_clean (object fields) ≡ true → strip_nul_bytes (object fields) ≡ object fields)
strip_fields-is_clean fields =
    (stripped (object fields), λ name. get_field-strip name fields, unchanged (object fields))
