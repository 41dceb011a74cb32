-- ===== src/Middleware/InputGuard.antt =====
-- apps/server/src/middleware/inputGuard.ts: bodies are parsed by a schema, and NUL bytes are taken out
-- of every text of a body, at any depth. The keys of objects are left as they are.
pub mod Clean
use Prim.Native.Char.{code}
use pm_chat.Base.{ℕ, String, Bool, Option, none, some, if◌then◌else◌, ◌==◌}
use pm_chat.Json.{
  Json, null, boolean, zero, number, text, array, object, Items, nil, cons, Fields, end, field,
}

-- `replace(/\0/g, "")`
unfoldable pub strip_text : String → String
strip_text String.[] = String.[]
strip_text (String.◌∷◌ c s) = if code c == 0 then strip_text s else String.◌∷◌ c (strip_text s)

-- `stripNulBytes`
unfoldable mutual
  pub strip_nul_bytes : Json → Json
  strip_nul_bytes null = null
  strip_nul_bytes (boolean b) = boolean b
  strip_nul_bytes zero = zero
  strip_nul_bytes (number digits) = number digits
  strip_nul_bytes (text s) = text (strip_text s)
  strip_nul_bytes (array items) = array (strip_items items)
  strip_nul_bytes (object fields) = object (strip_fields fields)

  pub strip_items : Items → Items
  strip_items nil = nil
  strip_items (cons item rest) = cons (strip_nul_bytes item) (strip_items rest)

  pub strip_fields : Fields → Fields
  strip_fields end = end
  strip_fields (field key value rest) = field key (strip_nul_bytes value) (strip_fields rest)

-- `sanitizeBody`: only arrays and objects are stripped.
unfoldable pub sanitize_body : Option Json → Option Json
sanitize_body (some (array items)) = some (strip_nul_bytes (array items))
sanitize_body (some (object fields)) = some (strip_nul_bytes (object fields))
sanitize_body body = body

pub data Validated {ℓ} (A : Type ℓ) : Type ℓ where
  bad_request : Validated A
  proceed : (body : A) → Validated A

-- `validate`, for a schema that parses a body or reports errors
unfoldable pub validate {ℓ} :
    {A : Type ℓ} → (parse : Option Json → Option A) → Option Json → Validated A
validate parse body = elim (parse body) [ none ↦ bad_request | some parsed ↦ proceed parsed ]
