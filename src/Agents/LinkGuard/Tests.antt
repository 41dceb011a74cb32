-- ===== src/Agents/LinkGuard/Tests.antt =====
-- Runs of linkGuard.ts on small inputs, and the theorems about it at such inputs.
use pm_chat.Base.{
  ◌+◌, ◌≤◌, ◌≡◌, ◌↔◌, refl, String, true, false, some, List, [], ◌∷◌, arith, if◌then◌else◌, ◌===◌,
}
use pm_chat.Dict
use pm_chat.Dict.{Each}
use pm_chat.NameSet
use pm_chat.Agents.LinkGuard.{
  StoredLink, Store, LinkParams, allowed, denied, expired, create_share_link, validate_link_access,
  revoke_link, check_link, unique_ips, ip_unlisted, anomaly, pin_refused, cleanup,
}
use pm_chat.Agents.LinkGuard.Checks.{Permits, allowed_iff}
use pm_chat.Agents.LinkGuard.Budget.{
  Call, create, visit, revoke, clean, step, run, entered_total, left, entered_total-le-left,
}

-- Any function stands for the digest in a test.
abbrev digest : String → String
digest pin = if pin === "1234" then "d1" else "d2"

abbrev params : LinkParams
params = record {
  conversation_id = "c1";
  created_by = "alice";
  expires_in_minutes = 60;
  max_views = 2;
  pin = some "1234";
  one_time_view = false;
  ip_whitelist = [];
}

abbrev calls : List Call
calls =
    create params "t1" 0
    ∷ visit "t1" "ip1" "ua" (some "1234") 10
    ∷ visit "t1" "ip1" "ua" (some "9999") 20
    ∷ visit "t1" "ip2" "ua" (some "1234") 30
    ∷ visit "t1" "ip2" "ua" (some "1234") 40
    ∷ []

link_guard : Unit {0}
unfolding create_share_link validate_link_access check_link revoke_link cleanup unique_ips
    ip_unlisted anomaly pin_refused step run entered_total Dict.get Dict.set Dict.retain NameSet.has
    NameSet.from NameSet.add
link_guard = tt

two_enter : entered_total digest "t1" [] calls ≡ 2
unfolding link_guard
two_enter = refl

abbrev shared : StoredLink
shared = record {
  token = "t1";
  conversation_id = "c1";
  created_by = "alice";
  expires_at = 3_600_000;
  max_views = 2;
  current_views = 0;
  pin_hash = some "d1";
  ip_whitelist = [];
  one_time_view = false;
  active = true;
  access_log = [];
  created_at = 0;
}

created : (create_share_link digest params "t1" 0 []).0 ≡ ("t1", shared) ∷ []
unfolding link_guard
created = refl

abbrev links : Store
links = ("t1", shared) ∷ []

late :
    (validate_link_access digest "t1" "ip1" "ua" (some "1234") 3_600_001 links).1 ≡ denied expired
unfolding link_guard
late = refl

allowed_iff_example :
    ((validate_link_access digest "t1" "ip1" "ua" (some "1234") 10 links).1 ≡ allowed "c1") ↔ (
      (link : StoredLink) × (Dict.get "t1" links ≡ some link)
      × Permits digest link "ip1" (some "1234") 10
      × ("c1" ≡ link.conversation_id))
allowed_iff_example = allowed_iff digest "t1" "ip1" "ua" (some "1234") 10 links "c1"

abbrev visits : List Call
visits =
    visit "t1" "ip1" "ua" (some "1234") 10
    ∷ visit "t1" "ip2" "ua" (some "1234") 30
    ∷ visit "t1" "ip2" "ua" (some "1234") 40
    ∷ revoke "t1" "alice"
    ∷ clean 50
    ∷ []

entered_total-le-left_example :
    entered_total digest "t1" links visits + left "t1" (run digest links visits) ≤ left "t1" links
entered_total-le-left_example = entered_total-le-left digest "t1" links visits (omega arith)
