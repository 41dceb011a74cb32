-- ===== src/Agents/LinkGuard.antt =====
-- apps/server/src/agents/linkGuard.ts: links that share a conversation, and who may follow them.
-- A method takes the store and the reading of the clock, and returns the new store with its result.
-- The token of `createShareLink` comes from `crypto.randomBytes` and is an argument; `hash` is the
-- SHA-256 digest of `hashPin`. Dates are milliseconds.
pub mod Checks
pub mod Budget
pub mod Views
mod Tests
use pm_chat.Base.{
  ℕ, ◌+◌, ◌*◌, ◌-◌, String, Bool, true, false, not, ◌&&◌, ◌||◌, Option, none, some, List, [], ◌∷◌,
  ◌++◌, map, if◌then◌else◌, ltb, leb, ◌==◌, ◌===◌, truthy, length, keep, total,
}
use pm_chat.Dict
use pm_chat.Dict.{Dict}
use pm_chat.NameSet

pub record Visit : Type 0 where
  pub ip : String
  pub timestamp : ℕ
  pub user_agent : String

pub record StoredLink : Type 0 where
  pub token : String
  pub conversation_id : String
  pub created_by : String
  pub expires_at : ℕ
  pub max_views : ℕ
  pub current_views : ℕ
  pub pin_hash : Option String
  pub ip_whitelist : List String
  pub one_time_view : Bool
  pub active : Bool
  pub access_log : List Visit
  pub created_at : ℕ

pub record LinkParams : Type 0 where
  pub conversation_id : String
  pub created_by : String
  pub expires_in_minutes : ℕ
  pub max_views : ℕ
  pub pin : Option String
  pub one_time_view : Bool
  pub ip_whitelist : List String

abbrev pub Store : Type 0
Store = Dict StoredLink

abbrev inactive_link_retention_ms : ℕ
inactive_link_retention_ms = 86_400_000

-- The answers of `validateLinkAccess`; a denial names its reason.
pub data Denial : Type 0 where
  unknown revoked expired exhausted ip_refused wrong_pin anomalous : Denial

pub data Verdict : Type 0 where
  denied : Denial → Verdict
  allowed : (conversation_id : String) → Verdict

module _ (hash : String → String) where
  -- `params.pin ? hashPin(params.pin) : null`
  pub hash_pin : Option String → Option String
  hash_pin none = none
  hash_pin (some pin) = if truthy (some pin) then some (hash pin) else none

  unfoldable pub create_share_link :
      LinkParams → (token : String) (now : ℕ) → Store → Store × StoredLink
  unfolding hash_pin
  create_share_link params token now links =
      let link : StoredLink = record {
        token = token;
        conversation_id = params.conversation_id;
        created_by = params.created_by;
        expires_at = now + params.expires_in_minutes * 60_000;
        max_views = params.max_views;
        current_views = 0;
        pin_hash = hash_pin params.pin;
        ip_whitelist = params.ip_whitelist;
        one_time_view = params.one_time_view;
        active = true;
        access_log = [];
        created_at = now;
      } in
      (Dict.set token link links, link)

  -- `!pin || hashPin(pin) !== link.pinHash`
  pin_mismatch : Option String → String → Bool
  pin_mismatch none stored = true
  pin_mismatch (some pin) stored = if truthy (some pin) then not (hash pin === stored) else true

  -- `link.pinHash && (…)`
  unfoldable pub pin_refused : Option String → Option String → Bool
  unfolding pin_mismatch
  pin_refused none pin = false
  pin_refused (some stored) pin = truthy (some stored) && pin_mismatch pin stored

-- `new Set(link.accessLog.map((a) => a.ip))`
unfoldable pub unique_ips : StoredLink → List String
unique_ips link = NameSet.from [] (map (λ (a : Visit). a.ip) link.access_log)

unfoldable pub ip_unlisted : StoredLink → String → Bool
ip_unlisted link ip = ltb 0 (length link.ip_whitelist) && not (NameSet.has ip link.ip_whitelist)

unfoldable pub anomaly : StoredLink → String → Bool
anomaly link ip = ltb 5 (length (unique_ips link)) && not (NameSet.has ip (unique_ips link))

deactivate : StoredLink → StoredLink
deactivate link = record link { active = false }

record_access : StoredLink → (ip user_agent : String) (now : ℕ) → StoredLink
record_access link ip user_agent now = record link {
  current_views = link.current_views + 1;
  access_log = link.access_log ++ record { ip = ip; timestamp = now; user_agent = user_agent } ∷ [];
  active = if link.one_time_view then false else link.active;
}

module _ (hash : String → String) where
  -- the checks on a link that was found: the link as it is left, and the answer
  unfoldable pub check_link :
      StoredLink → (ip user_agent : String) (pin : Option String) (now : ℕ) → StoredLink × Verdict
  unfolding deactivate record_access
  check_link link ip user_agent pin now =
      if not link.active
      then (link, denied revoked)
      else if ltb link.expires_at now
      then (deactivate link, denied expired)
      else if leb link.max_views link.current_views
      then (deactivate link, denied exhausted)
      else if ip_unlisted link ip
      then (link, denied ip_refused)
      else if pin_refused hash link.pin_hash pin
      then (link, denied wrong_pin)
      else if anomaly link ip
      then (deactivate link, denied anomalous)
      else (record_access link ip user_agent now, allowed link.conversation_id)

  unfoldable pub validate_link_access :
      (token ip user_agent : String) (pin : Option String) (now : ℕ) → Store → Store × Verdict
  validate_link_access token ip user_agent pin now links = elim (Dict.get token links) [
    | none ↦ (links, denied unknown)
    | some link ↦
        let (link', verdict) = check_link link ip user_agent pin now in
        (Dict.set token link' links, verdict)
  ]

unfoldable pub revoke_link : (token user_id : String) → Store → Store × Bool
unfolding deactivate
revoke_link token user_id links = elim (Dict.get token links) [
  | none ↦ (links, false)
  | some link ↦
      if not (link.created_by === user_id)
      then (links, false)
      else (Dict.set token (deactivate link) links, true)
]

unfoldable pub get_user_links : (user_id : String) (now : ℕ) → Store → List StoredLink
get_user_links user_id now links =
    keep (λ l. l.created_by === user_id && (l.active && ltb now l.expires_at)) (Dict.values links)

pub record Metrics : Type 0 where
  pub active_links : ℕ
  pub total_created : ℕ
  pub total_accesses : ℕ
  pub blocked_accesses : ℕ

unfoldable pub get_link_guard_metrics : (now : ℕ) → Store → Metrics
get_link_guard_metrics now links = record {
  active_links =
      length (keep (λ (l : StoredLink). l.active && ltb now l.expires_at) (Dict.values links));
  total_created = length links;
  total_accesses = total (λ (l : StoredLink). length l.access_log) (Dict.values links);
  blocked_accesses = length (
      keep (λ (l : StoredLink). not l.active && ltb l.current_views l.max_views)
        (Dict.values links));
}

-- the periodic cleanup
unfoldable pub cleanup : (now : ℕ) → Store → Store
cleanup now links =
    Dict.retain
      (λ l. not (
        ltb l.expires_at now
        || (not l.active && ltb inactive_link_retention_ms (now - l.created_at))))
      links
