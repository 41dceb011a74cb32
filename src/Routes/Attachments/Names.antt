-- ===== src/Routes/Attachments/Names.antt =====
-- Names that leave the upload directory are refused, and those of uploads are served.
use pm_chat.Base.{
  ℕ, ◌-◌, ◌≡◌, ◌≢◌, refl, Bool, true, false, ◌||◌, List, [], ◌∷◌, ◌++◌, arith, ◌==◌, length, drop,
  All, All-append, Bool-cases, inl, inr, ap, ◌∙◌, sym, subst, length-append, drop-append,
}
use mathlib.Core.List.{append_assoc, append-nil}
use pm_chat.Schema.{codes, is_hex}
use pm_chat.Middleware.Guards.{includes}
use pm_chat.Routes.Attachments.{
  filename_of, slash, trim_slashes, after_last_slash, basename, same_codes, ends_with, file,
  download,
}

abbrev pub NoSlash : List ℕ → Type 0
NoSlash s = All (λ c. c ≢ slash) s

after-NoSlash : (part s : List ℕ) → NoSlash part → NoSlash (after_last_slash part s)
unfolding after_last_slash
after-NoSlash part [] h = h
after-NoSlash part (c ∷ s) h = elim (Bool-cases (c == slash)) [
  | inl cut ↦ rw cut (after-NoSlash [] s tt)
  | inr other ↦ rw other (
      after-NoSlash (part ++ c ∷ []) s
        (All-append (λ x. x ≢ slash) part (c ∷ []) h ((λ e. ground arith), tt)))
]

after-same : (part s : List ℕ) → NoSlash s → after_last_slash part s ≡ part ++ s
unfolding after_last_slash
after-same part [] h = sym (append-nil part)
after-same part (c ∷ s) (other, h) =
    let e : (c == slash) ≡ false = ground arith in
    rw e (after-same (part ++ c ∷ []) s h ∙ append_assoc part (c ∷ []) s)

trim-same : (s : List ℕ) → NoSlash s → trim_slashes s ≡ s
unfolding trim_slashes
trim-same [] h = refl
trim-same (c ∷ s) (other, h) = ground (arith, trim-same s h)

basename-same : (s : List ℕ) → NoSlash s → basename s ≡ s
basename-same s h = ap (after_last_slash []) (trim-same s h) ∙ after-same [] s h

-- The characters of a UUID: hexadecimal digits and dashes.
abbrev pub is_uuid_char : ℕ → Bool
is_uuid_char c = is_hex c || c == b'-'

abbrev pub IsUuid : List ℕ → Type 0
IsUuid s = All (λ c. is_uuid_char c ≡ true) s

filename-NoSlash : (uuid : List ℕ) → IsUuid uuid → NoSlash (filename_of uuid)
filename-NoSlash [] h =
    ((λ e. ground arith), ((λ e. ground arith), ((λ e. ground arith), ((λ e. ground arith), tt))))
filename-NoSlash (c ∷ cs) (d, h) = ((λ e. ground arith), filename-NoSlash cs h)

filename_dots : (uuid : List ℕ) → IsUuid uuid → includes (codes "..") (filename_of uuid) ≡ false
unfolding includes
filename_dots [] h = refl
filename_dots (c ∷ cs) (d, h) = ground (arith, filename_dots cs h)

filename_ends : (uuid : List ℕ) → ends_with (codes ".enc") (filename_of uuid) ≡ true
unfolding same_codes
filename_ends uuid =
    let e : length (filename_of uuid) - 4 ≡ length uuid =
      omega (arith, length-append uuid (codes ".enc")) in
    ap (λ n. same_codes (drop n (filename_of uuid)) (codes ".enc")) e
    ∙ ap (λ s. same_codes s (codes ".enc"))
        (drop-append (length uuid) uuid (codes ".enc") (omega arith)
          ∙ ap (λ s. s ++ codes ".enc") (drop_all uuid))
  where
    drop_all : (s : List ℕ) → drop (length s) s ≡ []
    drop_all [] = refl
    drop_all (x ∷ s) = drop_all s

-- The name that an upload gets is the one under which the file is served.
download-filename_of :
    (uuid : List ℕ) → IsUuid uuid → download (filename_of uuid) ≡ file (filename_of uuid)
unfolding download
download-filename_of uuid h =
    let same = basename-same (filename_of uuid) (filename-NoSlash uuid h) in
    rw (same, filename_ends uuid, filename_dots uuid h)

-- Whatever name a client asks for, a file that is served has a name without a slash and without two
-- dots in a row, which ends in .enc: it lies in the upload directory itself.
pub download-IsInside :
    (name served : List ℕ)
    → download name ≡ file served
    → NoSlash served
      × (includes (codes "..") served ≡ false)
      × (ends_with (codes ".enc") served ≡ true)
unfolding download
download-IsInside name served h = elim (Bool-cases (ends_with (codes ".enc") (basename name))) [
  | inr other ↦ absurd (ground arith)
  | inl ends ↦ elim (Bool-cases (includes (codes "..") (basename name))) [
    | inl dots ↦ absurd (ground arith)
    | inr plain ↦
        let same : basename name ≡ served = ground arith in
        subst
          (λ s. NoSlash s × (includes (codes "..") s ≡ false) × (ends_with (codes ".enc") s ≡ true))
          same (after-NoSlash [] (trim_slashes name) tt, plain, ends)
  ]
]
