-- ===== src/Schema.antt =====
-- The Zod schemas that the handlers parse their input with: the kinds of field that they use, over
-- the values that a client can send.
use Prim.Native.Char.{code}
use pm_chat.Base.{
  ℕ, ◌+◌, String, Bool, ◌&&◌, ◌||◌, Option, none, some, List, [], ◌∷◌, if◌then◌else◌, leb, ltb,
  ◌==◌, length, all,
}
use pm_chat.Dict.{Dict}

-- A number stands for a non-negative integer; `other` is any other value, null, a list, an object
-- or a number that is negative or no integer.
pub data Value : Type 0 where
  text : String → Value
  number : ℕ → Value
  flag : Bool → Value
  other : Value

-- What a client sends: an object by its fields, or something else.
pub data Input : Type 0 where
  object : Dict Value → Input
  no_object : Input

-- The code points of a text.
abbrev pub codes : String → List ℕ
codes String.[] = []
codes (String.◌∷◌ c s) = code c ∷ codes s

-- `s.length`: a code point outside the basic plane is two UTF-16 units.
unfoldable pub units : List ℕ → ℕ
units [] = 0
units (c ∷ cs) = (if ltb c 0x1_0000 then 1 else 2) + units cs

-- [a-f\d], without regard to case
abbrev pub is_hex : ℕ → Bool
is_hex c = (leb b'0' c && leb c b'9') || ((leb b'a' c && leb c b'f') || (leb b'A' c && leb c b'F'))

-- /^[a-f\d]{24}$/i
unfoldable pub is_object_id : String → Bool
is_object_id s = length (codes s) == 24 && all is_hex (codes s)

infixl 5 ◌>>=◌
abbrev pub ◌>>=◌ {ℓ κ} : {A : Type ℓ} {B : Type κ} → Option A → (A → Option B) → Option B
none >>= f = none
some a >>= f = f a

-- z.string().regex(/^[a-f\d]{24}$/i)
unfoldable pub object_id : Option Value → Option String
object_id (some (text s)) = if is_object_id s then some s else none
object_id _ = none

-- z.string().min(low).max(high)
unfoldable pub string_of : (low high : ℕ) → Option Value → Option String
string_of low high (some (text s)) =
    if leb low (units (codes s)) && leb (units (codes s)) high then some s else none
string_of low high _ = none

-- z.number().int().positive().max(high)
unfoldable pub positive_of : (high : ℕ) → Option Value → Option ℕ
positive_of high (some (number n)) = if ltb 0 n && leb n high then some n else none
positive_of high _ = none

-- z.boolean()
unfoldable pub boolean_of : Option Value → Option Bool
boolean_of (some (flag b)) = some b
boolean_of _ = none

-- .optional()
unfoldable pub optional {ℓ} :
    {A : Type ℓ} → (Option Value → Option A) → Option Value → Option (Option A)
optional p none = some none
optional p (some v) = p (some v) >>= λ a. some (some a)

-- The fields of an object; anything else has none, and no schema accepts it.
abbrev pub fields : Input → Option (Dict Value)
fields (object d) = some d
fields no_object = none
