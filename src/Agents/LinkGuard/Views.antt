-- ===== src/Agents/LinkGuard/Views.antt =====
-- The records that linkGuard.ts keeps of a link's use, over any run of its operations.
use pm_chat.Base.{
  ℕ, ◌≤◌, ◌≡◌, String, true, false, Option, some, List, [], ◌∷◌, arith, eq_iff, length,
  length-append, if◌then◌else◌, ◌⊎◌, Option-cases, inl, inr, Bool-cases, ◌===◌,
}
use pm_chat.Dict
use pm_chat.Dict.{Each, Each-set, Each-retain, get-Each}
use pm_chat.Agents.LinkGuard.{
  StoredLink, Store, create_share_link, check_link, validate_link_access, revoke_link, cleanup,
}
use pm_chat.Agents.LinkGuard.Budget.{Call, create, visit, revoke, clean, step, run}

pub record IsConsistent (key : String) (link : StoredLink) : Type 0 where
  pub keyed : link.token ≡ key
  pub logged : link.current_views ≡ length link.access_log
  pub bounded : link.current_views ≤ link.max_views
  pub single : link.one_time_view ≡ true → link.active ≡ true → link.current_views ≡ 0
  pub once : link.one_time_view ≡ true → link.current_views ≤ 1

module _ (hash : String → String) where
  check_link-IsConsistent :
      (key ip agent : String) (pin : Option String) (now : ℕ) (link : StoredLink)
      → IsConsistent key link
      → IsConsistent key (check_link hash link ip agent pin now).0
  unfolding check_link
  check_link-IsConsistent key ip agent pin now link v = grind (arith, length-append link.access_log)

  visit-IsConsistent :
      (token ip agent : String) (pin : Option String) (now : ℕ) (links : Store)
      → Each IsConsistent links
      → Each IsConsistent (validate_link_access hash token ip agent pin now links).0
  unfolding validate_link_access
  visit-IsConsistent token ip agent pin now links v = elim (Option-cases (Dict.get token links)) [
    | inl missing ↦ rw (missing, validate_link_access) v
    | inr (link, found) ↦
        let c = get-Each IsConsistent token link links v found in
        rw (found, validate_link_access)
          (Each-set IsConsistent token _ links
            (check_link-IsConsistent token ip agent pin now link c) v)
  ]

  revoke-IsConsistent :
      (token user_id : String) (links : Store)
      → Each IsConsistent links
      → Each IsConsistent (revoke_link token user_id links).0
  unfolding revoke_link
  revoke-IsConsistent token user_id links v = elim (Option-cases (Dict.get token links)) [
    | inl missing ↦ rw (missing, revoke_link) v
    | inr (link, found) ↦ elim (Bool-cases (link.created_by === user_id)) [
      | inl own ↦
          let c = get-Each IsConsistent token link links v found in
          rw (found, revoke_link) (rw own (Each-set IsConsistent token _ links (ground arith) v))
      | inr other ↦ rw (found, revoke_link) (rw other v)
    ]
  ]

  step-IsConsistent :
      (links : Store) (c : Call) → Each IsConsistent links → Each IsConsistent (step hash links c)
  unfolding step create_share_link cleanup
  step-IsConsistent links (create params token now) v =
      Each-set IsConsistent token _ links (ground arith) v
  step-IsConsistent links (visit token ip agent pin now) v =
      visit-IsConsistent token ip agent pin now links v
  step-IsConsistent links (revoke token user_id) v = revoke-IsConsistent token user_id links v
  step-IsConsistent links (clean now) v = Each-retain IsConsistent _ links v

  -- Any calls keep the store consistent, from the empty one on: every link stands under its token, counts exactly the visits
  -- of its log, has at most its maximum of them, and at most one if it is for a single view.
  run-IsConsistent :
      (links : Store) (cs : List Call)
      → Each IsConsistent links
      → Each IsConsistent (run hash links cs)
  unfolding run
  run-IsConsistent links [] v = v
  run-IsConsistent links (c ∷ cs) v =
      run-IsConsistent (step hash links c) cs (step-IsConsistent links c v)

-- A link is revoked exactly by the user who made it; then it is left inactive, and the links under
-- other tokens are as they were. In every other case nothing changes.
revoke_link_cases :
    (token user_id : String) (links : Store)
    → ((link : StoredLink) × (Dict.get token links ≡ some link)
        × (link.created_by ≡ user_id)
        × ((revoke_link token user_id links).1 ≡ true)
        × ((t : String)
            → Dict.get t (revoke_link token user_id links).0
              ≡ (if token === t then some (record link { active = false }) else Dict.get t links)))
      ⊎ (((revoke_link token user_id links).1 ≡ false)
          × ((revoke_link token user_id links).0 ≡ links))
unfolding revoke_link
revoke_link_cases token user_id links = elim (Option-cases (Dict.get token links)) [
  | inl missing ↦ inr (ground arith, ground arith)
  | inr (link, found) ↦ elim (Bool-cases (link.created_by === user_id)) [
    | inl own ↦ inl (
      link,
      found,
      (eq_iff _ _).0 own,
      ground arith,
      λ t. ground (arith, Dict.get-set token t (record link { active = false }) links),
    )
    | inr other ↦ inr (ground arith, ground arith)
  ]
]
