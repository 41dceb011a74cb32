-- ===== src/Routes/Attachments.antt =====
-- apps/server/src/routes/attachments.ts, behind `authMiddleware`: encrypted files under random names.
-- A name is the list of its characters. The library multer stores the file; the UUID of its name is
-- an argument, and so is what the file system holds.
pub mod Names
mod Tests
use pm_chat.Base.{
  ℕ, ◌-◌, String, Bool, true, false, not, ◌&&◌, ◌||◌, Option, none, some, List, [], ◌∷◌, ◌++◌,
  if◌then◌else◌, ◌==◌, ◌===◌, length, drop,
}
use pm_chat.Schema.{codes}
use pm_chat.Middleware.Guards.{includes, starts_with}

-- `fileFilter`: whether the file is taken
unfoldable pub file_filter : (mimetype : String) → Bool
file_filter mimetype =
    mimetype === "application/octet-stream" || mimetype === "application/encrypted"

-- `${uuidv4()}.enc`
abbrev pub filename_of : (uuid : List ℕ) → List ℕ
filename_of uuid = uuid ++ codes ".enc"

pub record Uploaded : Type 0 where
  pub url : List ℕ
  pub filename : List ℕ

-- POST /, for the name of the file that was stored, if there is one: `none` is the error 400.
unfoldable pub upload : Option (List ℕ) → Option Uploaded
upload none = none
upload (some filename) =
    some (record { url = codes "/api/attachments/" ++ filename; filename = filename })

abbrev pub slash : ℕ
slash = b'/'

-- the name without the slashes at its end
unfoldable pub trim_slashes : List ℕ → List ℕ
trim_slashes [] = []
trim_slashes (c ∷ cs) = elim (trim_slashes cs) [
  | [] ↦ if c == slash then [] else c ∷ []
  | d ∷ ds ↦ c ∷ d ∷ ds
]

-- what follows the last slash; `part` is what was read since the one before
unfoldable pub after_last_slash : (part : List ℕ) → List ℕ → List ℕ
after_last_slash part [] = part
after_last_slash part (c ∷ cs) = after_last_slash (if c == slash then [] else part ++ c ∷ []) cs

-- `path.basename`
abbrev pub basename : List ℕ → List ℕ
basename name = after_last_slash [] (trim_slashes name)

unfoldable pub same_codes : List ℕ → List ℕ → Bool
same_codes [] [] = true
same_codes (x ∷ xs) (y ∷ ys) = x == y && same_codes xs ys
same_codes _ _ = false

-- `s.endsWith(suffix)`
abbrev pub ends_with : (suffix : List ℕ) → List ℕ → Bool
ends_with suffix s = same_codes (drop (length s - length suffix) s) suffix

pub data Reply : Type 0 where
  invalid_name : Reply
  -- the file of this name in the upload directory, or the error 404
  file : (filename : List ℕ) → Reply

-- GET /:filename
unfoldable pub download : (filename : List ℕ) → Reply
download filename =
    if not (ends_with (codes ".enc") (basename filename))
      || includes (codes "..") (basename filename)
    then invalid_name
    else file (basename filename)
