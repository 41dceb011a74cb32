-- ===== src/Share.antt =====
-- apps/server/src/routes/share.ts: links to a conversation, over the Link Guard, the conversations
-- and the premium tiers. A body is as its schema has parsed it; the token of a new link is an
-- argument, as in the Link Guard.
pub mod Access
mod Tests
use pm_chat.Base.{
  ℕ, String, Bool, true, false, Option, none, some, List, [], map, if◌then◌else◌, leb, ◌===◌,
  truthy, length,
}
use pm_chat.NameSet
use pm_chat.Models.{Conversation}
use pm_chat.Services.{failed, got}
use pm_chat.Services.Mongo.{Mongo}
use pm_chat.Agents.LinkGuard.{
  StoredLink, LinkParams, Store, Denial, Verdict, denied, allowed, create_share_link,
  validate_link_access, revoke_link, get_user_links,
}
use pm_chat.Premium.Tiers.{Limit, unlimited, at_most, get_tier}
use pm_chat.Premium.Access.{UserTiers, get_user_tier}

pub record ShareBody : Type 0 where
  pub conversation_id : String
  pub expires_in_minutes : ℕ
  pub max_views : ℕ
  pub pin : Option String
  pub one_time_view : Bool
  pub ip_whitelist : List String

abbrev pub params_of : (user_id : String) → ShareBody → LinkParams
params_of user_id body = record {
  conversation_id = body.conversation_id;
  created_by = user_id;
  expires_in_minutes = body.expires_in_minutes;
  max_views = body.max_views;
  pin = body.pin;
  one_time_view = body.one_time_view;
  ip_whitelist = body.ip_whitelist;
}

pub record Created : Type 0 where
  pub token : String
  pub expires_at : ℕ
  pub max_views : ℕ
  pub pin_protected : Bool
  pub one_time_view : Bool

pub data Reply : Type 0 where
  invalid_conversation_id conversation_not_found server_error : Reply
  limit_reached : (current_count max_allowed : ℕ) → Reply
  created : Created → Reply

abbrev pub summary : StoredLink → Created
summary link = record {
  token = link.token;
  expires_at = link.expires_at;
  max_views = link.max_views;
  pin_protected = truthy link.pin_hash;
  one_time_view = link.one_time_view;
}

-- the limit, if the count reaches it
abbrev pub limit_hit : (count : ℕ) → Limit → Option ℕ
limit_hit count unlimited = none
limit_hit count (at_most max) = if leb max count then some max else none

module _ (M : Mongo) (hash : String → String) (is_valid_id : String → Bool) where
  abbrev pub made :
      (user_id : String) → ShareBody → (token : String) (now : ℕ) → Store → Option ℕ → Store × Reply
  made user_id body token now links none =
      let result = create_share_link hash (params_of user_id body) token now links in
      (result.0, created (summary result.1))
  made user_id body token now links (some max) =
      (links, limit_reached (length (get_user_links user_id now links)) max)

  -- what follows once the conversation was found
  unfoldable pub for_participant :
      (user_id : String)
      → ShareBody
      → (token : String) (now : ℕ) → Store
      → UserTiers
      → Store × UserTiers × Reply
  for_participant user_id body token now links tiers =
      let (after, tier) = get_user_tier user_id now tiers in
      let result =
        made user_id body token now links (
          limit_hit (length (get_user_links user_id now links)) (get_tier tier).max_shared_links) in
      (result.0, after, result.1)

  -- POST /
  unfoldable pub share :
      (user_id : String)
      → ShareBody
      → (token : String) (now : ℕ) → M.Db
      → Store
      → UserTiers
      → Store × UserTiers × Reply
  share user_id body token now db links tiers =
      if is_valid_id body.conversation_id
      then elim (M.find_conversation (M.object_id body.conversation_id) [] db) [
        | failed ↦ (links, tiers, server_error)
        | got none ↦ (links, tiers, conversation_not_found)
        | got (some conversation) ↦
            if NameSet.has user_id conversation.participants
            then for_participant user_id body token now links tiers
            else (links, tiers, conversation_not_found)
      ]
      else (links, tiers, invalid_conversation_id)

pub data AccessReply : Type 0 where
  forbidden : Denial → AccessReply
  admitted : (conversation_id : String) → AccessReply

abbrev pub access_reply : Verdict → AccessReply
access_reply (denied reason) = forbidden reason
access_reply (allowed conversation_id) = admitted conversation_id

module _ (hash : String → String) where
  -- POST /access
  unfoldable pub access :
      (token ip user_agent : String) (pin : Option String) (now : ℕ) → Store → Store × AccessReply
  access token ip user_agent pin now links =
      let result = validate_link_access hash token ip user_agent pin now links in
      (result.0, access_reply result.1)

pub record LinkSummary : Type 0 where
  pub created : Created
  pub conversation_id : String
  pub current_views : ℕ
  pub active : Bool
  pub created_at : ℕ

-- GET /links
unfoldable pub list_links : (user_id : String) (now : ℕ) → Store → List LinkSummary × ℕ
list_links user_id now links =
    let found = get_user_links user_id now links in
    (
      map
          (λ (l : StoredLink). record {
            created = summary l;
            conversation_id = l.conversation_id;
            current_views = l.current_views;
            active = l.active;
            created_at = l.created_at;
          })
          found,
      length found,
    )

pub data RevokeReply : Type 0 where
  token_required not_found revoked : RevokeReply

-- DELETE /:token
unfoldable pub revoke : (user_id token : String) → Store → Store × RevokeReply
revoke user_id token links =
    let result = revoke_link token user_id links in
    if token === ""
    then (links, token_required)
    else (result.0, if result.1 then revoked else not_found)
