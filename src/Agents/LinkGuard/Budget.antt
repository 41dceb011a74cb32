-- ===== src/Agents/LinkGuard/Budget.antt =====
-- How often a link can be followed, over any run of the operations of linkGuard.ts.
use pm_chat.Base.{
  ℕ, ◌+◌, ◌-◌, ◌≤◌, ◌≢◌, String, false, Option, none, some, List, [], ◌∷◌, arith, eq_iff, ◌===◌,
  if◌then◌else◌, All, Option-cases, inl, inr, min,
}
use pm_chat.Dict
use pm_chat.Dict.{Dict}
use pm_chat.Agents.LinkGuard.{
  StoredLink, Store, LinkParams, Verdict, allowed, denied, create_share_link, check_link,
  validate_link_access, revoke_link, cleanup,
}

-- The calls that reach the store, each with its reading of the clock.
pub data Call : Type 0 where
  create : LinkParams → (token : String) (now : ℕ) → Call
  visit : (token ip user_agent : String) (pin : Option String) (now : ℕ) → Call
  revoke : (token user_id : String) → Call
  clean : (now : ℕ) → Call

-- 1 if the verdict lets the visitor in.
abbrev pub entries : Verdict → ℕ
entries (allowed c) = 1
entries (denied d) = 0

module _ (hash : String → String) where
  unfoldable pub step : Store → Call → Store
  step links (create params token now) = (create_share_link hash params token now links).0
  step links (visit token ip agent pin now) =
      (validate_link_access hash token ip agent pin now links).0
  step links (revoke token user_id) = (revoke_link token user_id links).0
  step links (clean now) = cleanup now links

  unfoldable pub run : Store → List Call → Store
  run links [] = links
  run links (c ∷ cs) = run (step links c) cs

  -- Whether a call is a visit to the token that is let in.
  unfoldable pub entered : (token : String) → Store → Call → ℕ
  entered token links (visit t ip agent pin now) =
      if t === token then entries (validate_link_access hash t ip agent pin now links).1 else 0
  entered token links _ = 0

  unfoldable pub entered_total : (token : String) → Store → List Call → ℕ
  unfolding step entered
  entered_total token links [] = 0
  entered_total token links (c ∷ cs) = entered token links c + entered_total token (step links c) cs

-- The visits that a link has left: none when it is missing or inactive, one when it is for a
-- single view, and otherwise those up to its maximum.
abbrev pub left_on : StoredLink → ℕ
left_on link =
    if link.active
    then (let rest = link.max_views - link.current_views in
        if link.one_time_view then min 1 rest else rest)
    else 0

abbrev pub left_of : Option StoredLink → ℕ
left_of none = 0
left_of (some link) = left_on link

abbrev pub left : (token : String) → Store → ℕ
left token links = left_of (Dict.get token links)

abbrev pub IsOther : (token : String) → Call → Type 0
IsOther token (create params t now) = t ≢ token
IsOther token _ = Unit

module _ (hash : String → String) where
  check_link_left :
      (link : StoredLink) (ip agent : String) (pin : Option String) (now : ℕ)
      → (let (link', verdict) = check_link hash link ip agent pin now in
          entries verdict + left_on link' ≤ left_on link)
  unfolding check_link
  check_link_left link ip agent pin now = ground arith

  visit_left :
      (token t ip agent : String) (pin : Option String) (now : ℕ) (links : Store)
      → entered hash token links (visit t ip agent pin now)
          + left token (step hash links (visit t ip agent pin now))
        ≤ left token links
  unfolding entered step validate_link_access
  visit_left token t ip agent pin now links = elim (Option-cases (Dict.get t links)) [
    | inl missing ↦ ground arith
    | inr (link, found) ↦ ground (
      arith,
      Dict.get-set t token (check_link hash link ip agent pin now).0 links,
      check_link_left link ip agent pin now,
      eq_iff t token,
    )
  ]

  revoke_left :
      (token t user_id : String) (links : Store)
      → left token (revoke_link t user_id links).0 ≤ left token links
  unfolding revoke_link
  revoke_left token t user_id links = elim (Option-cases (Dict.get t links)) [
    | inl missing ↦ ground arith
    | inr (link, found) ↦
        ground (arith, Dict.get-set t token (record link { active = false }) links, eq_iff t token)
  ]

  clean_left :
      (token : String) (now : ℕ) (links : Store) → left token (cleanup now links) ≤ left token links
  unfolding cleanup
  clean_left token now links = rw Dict.get-retain (ground arith)

  -- A call uses up at least as many of a link's visits as it lets in.
  step-left :
      (token : String) (links : Store) (c : Call)
      → IsOther token c
      → entered hash token links c + left token (step hash links c) ≤ left token links
  unfolding step entered create_share_link
  step-left token links (create params t now) other = ground (
    arith,
    Dict.get-set t token (create_share_link hash params t now links).1 links,
    eq_iff t token,
  )
  step-left token links (visit t ip agent pin now) _ = visit_left token t ip agent pin now links
  step-left token links (revoke t user_id) _ = omega (arith, revoke_left token t user_id links)
  step-left token links (clean now) _ = omega (arith, clean_left token now links)

  -- Over any run of calls none of which creates a link under the token again, the visits let in
  -- through it are at most those that it had left: none once it is inactive or gone, one if it is
  -- for a single view, and never more than its maximum.
  pub entered_total-le-left :
      (token : String) (links : Store) (cs : List Call)
      → All (IsOther token) cs
      → entered_total hash token links cs + left token (run hash links cs) ≤ left token links
  unfolding entered_total run
  entered_total-le-left token links [] _ = omega arith
  entered_total-le-left token links (c ∷ cs) (other, others) = omega (
    arith,
    step-left token links c other,
    entered_total-le-left token (step hash links c) cs others,
  )
