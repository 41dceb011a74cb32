-- ===== src/Share/Tests.antt =====
-- Runs of the share routes, with the identity for the digest.
use pm_chat.Base.{
  ◌≡◌, refl, inl, arith, String, Bool, true, List, none, ◌∷◌, eq_iff, some, [], keep, all,
}
use pm_chat.Dict
use pm_chat.NameSet
use pm_chat.Services.Memory.{small_letters, memory_mongo}
use pm_chat.Agents.LinkGuard.{
  wrong_pin, create_share_link, pin_refused, unique_ips, ip_unlisted, anomaly, check_link,
  validate_link_access, revoke_link, get_user_links,
}
use pm_chat.Premium.Tiers.{get_tier}
use pm_chat.Premium.Access.{get_user_tier}
use pm_chat.Sockets.Sample.{alice, mallory, world, conversation_id}
use pm_chat.Share.{
  ShareBody, Created, created, conversation_not_found, share, for_participant, access, admitted,
  forbidden, list_links, revoke,
}
use pm_chat.Agents.LinkGuard.Budget.{Call, visit, clean, run}
use pm_chat.Share.Access.{IsEntitled, share-access}

sharing : Unit {0}
unfolding small_letters share for_participant access list_links revoke create_share_link pin_refused
    unique_ips ip_unlisted anomaly check_link validate_link_access revoke_link get_user_links
    get_tier get_user_tier Dict.get Dict.set Dict.values NameSet.has NameSet.add NameSet.from keep
    all
sharing = tt

abbrev plain : String → String
plain s = s

abbrev valid_id : String → Bool
valid_id id = true

abbrev body : ShareBody
body = record {
  conversation_id = conversation_id;
  expires_in_minutes = 60;
  max_views = 1;
  pin = some "1234";
  one_time_view = true;
  ip_whitelist = [];
}

abbrev reply : Created
reply = record {
  token = "t";
  expires_at = 3_600_005;
  max_views = 1;
  pin_protected = true;
  one_time_view = true;
}

makes_link :
    (share memory_mongo plain valid_id alice.user_id body "t" 5 world.mongo [] []).2 ≡ created reply
unfolding sharing
makes_link = refl

stranger_refused :
    (share memory_mongo plain valid_id mallory.user_id body "t" 5 world.mongo [] []).2
    ≡ conversation_not_found
unfolding sharing
stranger_refused = refl

wrong_pin_refused :
    (access plain "t" "ip" "agent"
      (some "0000")
      6
      (share memory_mongo plain valid_id alice.user_id body "t" 5 world.mongo [] []).0).1
    ≡ forbidden wrong_pin
unfolding sharing
wrong_pin_refused = refl

-- What happens to other links before the first visit.
abbrev others : List Call
others = visit "other" "ip" "agent" none 5 ∷ clean 6 ∷ []

share-access_example :
    IsEntitled memory_mongo plain valid_id alice.user_id body 5 world.mongo [] []
    × ((access plain "t" "ip" "agent" (some "1234") 6 (
          run plain
            (share memory_mongo plain valid_id alice.user_id body "t" 5 world.mongo [] []).0
            others)).1
        ≡ admitted conversation_id)
unfolding sharing
share-access_example =
    share-access memory_mongo plain valid_id alice.user_id body "t" 5 world.mongo [] [] reply others
      "ip" "agent" 6 refl ((λ e. ground (arith, e, eq_iff "other" "t")), (omega arith, tt))
      (omega arith) (omega arith) (inl refl)
