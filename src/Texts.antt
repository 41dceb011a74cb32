-- ===== src/Texts.antt =====
-- Lemmas on concatenated texts, for the keys of Redis, and `substring`.
use Prim.Native.Char.{code}
use Prim.Native.String
use Prim.Native.String.append
use pm_chat.Base.{ℕ, zero, suc, ◌<◌, ◌≡◌, String, arith, ap, ◌∙◌, sym}

tail : String → String
tail String.[] = String.[]
tail (String.◌∷◌ c s) = s

-- the code point that a text starts with
abbrev pub head : String → ℕ
head String.[] = 0
head (String.◌∷◌ c s) = code c

pub head-append : (s u : String) → 0 < head s → head (String.◌++◌ s u) ≡ head s
head-append String.[] u h = absurd (omega arith)
head-append (String.◌∷◌ c s) u h = ap head (λ i. append.cons c s u i)

pub append-injective : (s u v : String) → String.◌++◌ s u ≡ String.◌++◌ s v → u ≡ v
unfolding tail
append-injective String.[] u v e = sym (λ i. append.nil u i) ∙ e ∙ (λ i. append.nil v i)
append-injective (String.◌∷◌ c s) u v e =
    append-injective s u v
      (ap tail (sym (λ i. append.cons c s u i) ∙ e ∙ (λ i. append.cons c s v i)))

-- `s.substring(0, n)`, on a text whose characters are one UTF-16 unit each
unfoldable pub substring : ℕ → String → String
substring zero s = String.[]
substring (suc n) String.[] = String.[]
substring (suc n) (String.◌∷◌ c s) = String.◌∷◌ c (substring n s)
