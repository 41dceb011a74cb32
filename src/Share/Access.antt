-- ===== src/Share/Access.antt =====
-- Links that are made let their visitors in.
use pm_chat.Base.{
  false, ◌≢◌, List, ◌===◌, ◌∷◌, eq_iff, All, ℕ, ◌+◌, ◌*◌, ◌≤◌, ◌<◌, ◌≡◌, refl, ◌⊎◌, inl, inr,
  String, Bool, true, none, some, [], arith, eq_refl, Bool-cases, Option-cases, length, ap, ◌∙◌,
  sym,
}
use pm_chat.Dict
use pm_chat.NameSet
use pm_chat.Models.{Conversation}
use pm_chat.Services.{Answer-cases}
use pm_chat.Services.Mongo.{Mongo, first, holds_members}
use pm_chat.Agents.LinkGuard.{
  StoredLink, Store, create_share_link, revoke_link, cleanup, get_user_links, validate_link_access,
  unique_ips, check_link,
}
use pm_chat.Agents.LinkGuard.Budget.{Call, create, visit, revoke, clean, step, run}
use pm_chat.Agents.LinkGuard.Checks.{hash_pin-PinFits, allowed_iff}
use pm_chat.Premium.Tiers.{get_tier}
use pm_chat.Premium.Access.{UserTiers, get_user_tier}
use pm_chat.Share.{
  ShareBody, params_of, Created, created, limit_hit, for_participant, share, admitted, access_reply,
  access,
}

-- The call is about another link, or is a cleanup before the link ends.
abbrev pub Spares : (token : String) (expires_at : ℕ) → Call → Type 0
Spares token expires_at (create params t now) = t ≢ token
Spares token expires_at (visit t ip agent pin now) = t ≢ token
Spares token expires_at (revoke t user_id) = t ≢ token
Spares token expires_at (clean now) = now ≤ expires_at

set-spared :
    (token t : String) (link x : StoredLink) (links : Store)
    → t ≢ token
    → Dict.get token links ≡ some link
    → Dict.get token (Dict.set t x links) ≡ some link
set-spared token t link x links other found = elim (Bool-cases (t === token)) [
  | inl same ↦ absurd (other ((eq_iff t token).0 same))
  | inr apart ↦ Dict.get-set t token x links ∙ (rw apart found)
]

step-spared :
    (hash : String → String) (token : String) (link : StoredLink) (links : Store) (c : Call)
    → link.active ≡ true
    → Spares token link.expires_at c
    → Dict.get token links ≡ some link
    → Dict.get token (step hash links c) ≡ some link
unfolding step create_share_link validate_link_access revoke_link cleanup
step-spared hash token link links (create params t now) live other found =
    set-spared token t link (create_share_link hash params t now links).1 links other found
step-spared hash token link links (visit t ip agent pin now) live other found =
    elim (Option-cases (Dict.get t links)) [
      | inl missing ↦ rw (missing, step, validate_link_access) found
      | inr (l, there) ↦
          rw (there, step, validate_link_access)
            (set-spared token t link (check_link hash l ip agent pin now).0 links other found)
    ]
step-spared hash token link links (revoke t user_id) live other found =
    elim (Option-cases (Dict.get t links)) [
      | inl missing ↦ rw (missing, step, revoke_link) found
      | inr (l, there) ↦ elim (Bool-cases (l.created_by === user_id)) [
        | inl own ↦
            rw (there, own, step, revoke_link)
              (set-spared token t link (record l { active = false }) links other found)
        | inr foreign ↦ rw (there, foreign, step, revoke_link) found
      ]
    ]
step-spared hash token link links (clean now) live early found =
    Dict.get-retain token _ links ∙ (rw found (ground (arith, live, early)))

run-spared :
    (hash : String → String) (token : String) (link : StoredLink) (cs : List Call) (links : Store)
    → link.active ≡ true
    → All (Spares token link.expires_at) cs
    → Dict.get token links ≡ some link
    → Dict.get token (run hash links cs) ≡ some link
unfolding run
run-spared hash token link [] links live _ found = found
run-spared hash token link (c ∷ cs) links live (s, ss) found =
    run-spared hash token link cs (step hash links c) live ss
      (step-spared hash token link links c live s found)

module _ (M : Mongo) (hash : String → String) (is_valid_id : String → Bool) where
  -- What a created link rests on: the user takes part in the conversation, and has fewer links that
  -- are active than the tier allows.
  pub record IsEntitled (user_id : String) (body : ShareBody) (now : ℕ) (db : M.Db) (links : Store)
      (tiers : UserTiers) : Type 0 where
    conversation : Conversation
    found :
        first (holds_members (M.object_id body.conversation_id) []) (M.conversations db)
        ≡ some conversation
    takes_part : NameSet.has user_id conversation.participants ≡ true
    below :
        limit_hit
          (length (get_user_links user_id now links))
          (get_tier (get_user_tier user_id now tiers).1).max_shared_links
        ≡ none

  share-IsEntitled :
      (user_id : String) (body : ShareBody) (token : String) (now : ℕ) (db : M.Db) (links : Store)
      (tiers : UserTiers) (reply : Created)
      → (share M hash is_valid_id user_id body token now db links tiers).2 ≡ created reply
      → IsEntitled user_id body now db links tiers
        × ((share M hash is_valid_id user_id body token now db links tiers).0
            ≡ (create_share_link hash (params_of user_id body) token now links).0)
  unfolding share for_participant
  share-IsEntitled u body token now db links tiers reply done =
      elim (Bool-cases (is_valid_id body.conversation_id)) [
        | inr malformed ↦ absurd (ground arith)
        | inl valid ↦
            elim (Answer-cases (M.find_conversation (M.object_id body.conversation_id) [] db)) [
              | inl down ↦ absurd (ground arith)
              | inr (none, e) ↦ absurd (ground arith)
              | inr (some c, e) ↦ elim (Bool-cases (NameSet.has u c.participants)) [
                | inr stranger ↦ absurd (ground arith)
                | inl member ↦
                    elim (Option-cases (
                      limit_hit (length (get_user_links u now links))
                        (get_tier (get_user_tier u now tiers).1).max_shared_links)) [
                          | inr (max, full) ↦ absurd (ground arith)
                          | inl free ↦ (
                            record {
                              conversation = c;
                              found = sym (M.find_conversation_lem _ _ _ _ e);
                              takes_part = member;
                              below = free;
                            },
                            ground arith,
                          )
                        ]
              ]
            ]
      ]

  -- A link is created only for a participant of the conversation who has fewer active links than
  -- the tier allows. With a body that the schema lets through, the first visitor of the link who comes
  -- before it ends, from an address that it lists if it lists any, and with the PIN that it was made
  -- with, is let in to the conversation, whatever has happened to other links in the meantime, and
  -- whatever cleanups have run before the link ends.
  pub share-access :
      (user_id : String) (body : ShareBody) (token : String) (now : ℕ) (db : M.Db) (links : Store)
      (tiers : UserTiers) (reply : Created) (cs : List Call) (ip user_agent : String) (t : ℕ)
      → (share M hash is_valid_id user_id body token now db links tiers).2 ≡ created reply
      → All (Spares token (now + body.expires_in_minutes * 60_000)) cs
      → 0 < body.max_views
      → t ≤ now + body.expires_in_minutes * 60_000
      → (body.ip_whitelist ≡ []) ⊎ (NameSet.has ip body.ip_whitelist ≡ true)
      → IsEntitled user_id body now db links tiers
        × ((access hash token ip user_agent body.pin t
              (run hash (share M hash is_valid_id user_id body token now db links tiers).0 cs)).1
            ≡ admitted body.conversation_id)
  unfolding access create_share_link unique_ips NameSet.from
  share-access u body token now db links tiers reply cs ip agent t done spared views in_time
        listed =
      let (entitled, same) = share-IsEntitled u body token now db links tiers reply done in
      let link = (create_share_link hash (params_of u body) token now links).1 in
      let found : Dict.get token (create_share_link hash (params_of u body) token now links).0
          ≡ some link =
        ground (arith, eq_refl token, Dict.get-set token token link links) in
      let still =
        run-spared hash token link cs (create_share_link hash (params_of u body) token now links).0
          refl spared found in
      let let_in =
        (allowed_iff hash token ip agent body.pin t
            (run hash (create_share_link hash (params_of u body) token now links).0 cs)
            body.conversation_id).1
          (
            link,
            still,
            record {
              live = refl;
              in_time = in_time;
              views_left = views;
              listed = listed;
              pin_fits = hash_pin-PinFits hash body.pin;
              usual = inl (omega arith);
            },
            refl,
          ) in
      (
        entitled,
        ap
              (λ s.
                access_reply
                  (validate_link_access hash token ip agent body.pin t (run hash s cs)).1)
              same
            ∙ ap access_reply let_in,
      )
