-- ===== src/Agents/ContentIntegrity.antt =====
-- apps/server/src/agents/contentIntegrity.ts: the checks of an encrypted message, and the history of
-- IVs. `is_low` and `is_critical` say that the Shannon entropy of a payload, which is computed in
-- floating point, is under 3 and under 1.5; the average size is compared exactly.
pub mod Reuse
mod Tests
use Prim.Native.String
use pm_chat.Base.{
  ℕ, ◌+◌, ◌*◌, String, Bool, true, false, not, ◌&&◌, ◌||◌, Option, none, some, List, [], ◌∷◌, ◌++◌,
  if◌then◌else◌, ltb, leb, ◌==◌, length, last, total,
}
use pm_chat.Dict
use pm_chat.Dict.{Dict}
use pm_chat.NameSet
use pm_chat.NameSet.{NameSet}
use pm_chat.Schema.{codes, units}

-- `ivHistory` and `payloadSizeHistory`
pub record Histories : Type 0 where
  pub iv_history : Dict NameSet
  pub payload_sizes : Dict (List ℕ)

abbrev pub initial : Histories
initial = record { iv_history = []; payload_sizes = [] }

pub record Params : Type 0 where
  pub encrypted_payload : String
  pub iv : String
  pub nonce : String
  pub conversation_id : String
  pub sender_id : String

pub data Error : Type 0 where
  payload_not_base64 iv_not_base64 payload_too_short iv_too_short iv_reused entropy_critical : Error

pub data Warning : Type 0 where
  entropy_low payload_too_large nonce_short : Warning

pub record Result : Type 0 where
  pub valid : Bool
  pub warnings : List Warning
  pub errors : List Error

-- [A-Za-z0-9+/]
abbrev pub is_base64_char : ℕ → Bool
is_base64_char c =
    (leb b'A' c && leb c b'Z')
    || ((leb b'a' c && leb c b'z') || ((leb b'0' c && leb c b'9') || (c == b'+' || c == b'/')))

-- after the first character: more of them, then only `=`
unfoldable pub is_rest : (padding : Bool) → List ℕ → Bool
is_rest padding [] = true
is_rest padding (c ∷ cs) =
    let more = is_rest false cs in
    let end = is_rest true cs in if c == b'=' then end else not padding && is_base64_char c && more

-- /^[A-Za-z0-9+/]+=*$/
unfoldable pub is_base64 : List ℕ → Bool
is_base64 [] = false
is_base64 (c ∷ cs) = is_base64_char c && is_rest false cs

-- `s.length`
abbrev pub size : String → ℕ
size s = units (codes s)

abbrev pub when {ℓ} : {A : Type ℓ} → Bool → A → List A
when b a = if b then a ∷ [] else []

abbrev pub or_empty {ℓ} : {A : Type ℓ} → Option (List A) → List A
or_empty none = []
or_empty (some xs) = xs

abbrev pub ivs_of : (conversation_id : String) → Histories → NameSet
ivs_of conversation_id h = or_empty (Dict.get conversation_id h.iv_history)

-- `length > avg * 10 && avg > 0` for the average of the sizes, of which there are some
abbrev pub is_oversized : (n : ℕ) → List ℕ → Bool
is_oversized n sizes =
    ltb (total (λ s. s) sizes * 10) (n * length sizes) && ltb 0 (total (λ s. s) sizes)

-- "Keep last 100", with more than ten
abbrev pub kept_sizes : List ℕ → List ℕ
kept_sizes sizes = if ltb 10 (length sizes) then last 100 sizes else sizes

module _ (is_low is_critical : String → Bool) where
  abbrev pub errors_of : Params → (reused : Bool) → List Error
  errors_of p reused =
      when (not (is_base64 (codes p.encrypted_payload))) payload_not_base64
      ++ when (not (is_base64 (codes p.iv))) iv_not_base64
      ++ when (ltb (size p.encrypted_payload) 16) payload_too_short
      ++ when (ltb (size p.iv) 16) iv_too_short
      ++ when reused iv_reused
      ++ when (is_critical p.encrypted_payload) entropy_critical

  abbrev pub warnings_of : Params → (sizes : List ℕ) → List Warning
  warnings_of p sizes =
      when (is_low p.encrypted_payload && ltb 32 (size p.encrypted_payload)) entropy_low
      ++ when (ltb 10 (length sizes) && is_oversized (size p.encrypted_payload) sizes)
          payload_too_large
      ++ when (ltb (size p.nonce) 16) nonce_short

  -- `validateMessageIntegrity`
  unfoldable pub validate_message_integrity : Params → Histories → Histories × Result
  validate_message_integrity p h =
      let ivs = ivs_of p.conversation_id h in
      let errors = errors_of p (NameSet.has p.iv ivs) in
      let sizes =
        or_empty (Dict.get p.sender_id h.payload_sizes) ++ size p.encrypted_payload ∷ [] in
      (
        record {
          iv_history = Dict.set p.conversation_id (NameSet.add p.iv ivs) h.iv_history;
          payload_sizes = Dict.set p.sender_id (kept_sizes sizes) h.payload_sizes;
        },
        record { valid = length errors == 0; warnings = warnings_of p sizes; errors = errors },
      )

-- the history of one conversation, cut to the last 5000 IVs if there are more than 10000
abbrev pub trimmed : NameSet → NameSet
trimmed ivs = if ltb 10_000 (length ivs) then NameSet.from [] (last 5_000 ivs) else ivs

unfoldable pub trim_all : Dict NameSet → Dict NameSet
trim_all [] = []
trim_all ((conversation_id, ivs) ∷ rest) = (conversation_id, trimmed ivs) ∷ trim_all rest

-- the cleanup of every 30 minutes
unfoldable pub cleanup : Histories → Histories
cleanup h = record h { iv_history = trim_all h.iv_history }

pub record Metrics : Type 0 where
  pub conversations_monitored : ℕ
  pub total_ivs_tracked : ℕ
  pub iv_reuses_detected : ℕ

-- `getContentIntegrityMetrics`
unfoldable pub get_content_integrity_metrics : Histories → Metrics
get_content_integrity_metrics h = record {
  conversations_monitored = length h.iv_history;
  total_ivs_tracked = total length (Dict.values h.iv_history);
  iv_reuses_detected = 0;
}
