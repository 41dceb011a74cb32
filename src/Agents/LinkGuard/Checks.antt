-- ===== src/Agents/LinkGuard/Checks.antt =====
-- Who may follow a link: what `validateLinkAccess` of linkGuard.ts demands.
use pm_chat.Base.{
  ℕ, ◌≤◌, ◌<◌, ◌≡◌, refl, ◌⊎◌, inl, inr, ◌↔◌, String, true, false, Option, none, some, [], arith,
  eq_iff, truthy, length, Bool-cases, Option-cases,
}
use pm_chat.Dict
use pm_chat.NameSet
use pm_chat.Agents.LinkGuard.{
  StoredLink, Store, allowed, unique_ips, ip_unlisted, anomaly, hash_pin, pin_refused, check_link,
  validate_link_access,
}

module _ (hash : String → String) where
  -- The link has no PIN, or the visitor gives a PIN with the stored digest.
  abbrev pub PinFits : Option String → Option String → Type 0
  PinFits stored pin =
      (truthy stored ≡ false)
      ⊎ ((p : String) × (pin ≡ some p) × (truthy (some p) ≡ true) × (stored ≡ some (hash p)))

  pub record Permits (link : StoredLink) (ip : String) (pin : Option String) (now : ℕ)
      : Type 0 where
    pub live : link.active ≡ true
    pub in_time : now ≤ link.expires_at
    pub views_left : link.current_views < link.max_views
    pub listed : (link.ip_whitelist ≡ []) ⊎ (NameSet.has ip link.ip_whitelist ≡ true)
    pub pin_fits : PinFits link.pin_hash pin
    pub usual : (length (unique_ips link) ≤ 5) ⊎ (NameSet.has ip (unique_ips link) ≡ true)

  -- The PIN that a link was made with fits it.
  pub hash_pin-PinFits : (pin : Option String) → PinFits (hash_pin hash pin) pin
  unfolding hash_pin
  hash_pin-PinFits none = inl refl
  hash_pin-PinFits (some p) = elim (Bool-cases (truthy (some p))) [
    | inl given ↦ inr (p, refl, given, ground arith)
    | inr absent ↦ inl (ground arith)
  ]

  pin_refused_sound :
      (stored pin : Option String) → pin_refused hash stored pin ≡ false → PinFits stored pin
  unfolding pin_refused
  pin_refused_sound none pin h = inl refl
  pin_refused_sound (some s) none h = inl (ground arith)
  pin_refused_sound (some s) (some p) h = elim (Bool-cases (truthy (some s))) [
    | inl given ↦ inr (p, refl, ground arith, ground (arith, eq_iff (hash p) s))
    | inr absent ↦ inl absent
  ]

  pin_refused_complete :
      (stored pin : Option String) → PinFits stored pin → pin_refused hash stored pin ≡ false
  unfolding pin_refused
  pin_refused_complete none pin h = refl
  pin_refused_complete (some s) pin (inl h) = ground arith
  pin_refused_complete (some s) pin (inr (p, e, given, same)) = ground (arith, eq_iff (hash p) s)

  check_link_sound :
      (link : StoredLink) (ip agent : String) (pin : Option String) (now : ℕ) (c : String)
      → (check_link hash link ip agent pin now).1 ≡ allowed c
      → Permits link ip pin now × (c ≡ link.conversation_id)
  unfolding check_link ip_unlisted anomaly
  check_link_sound link ip agent pin now c h = (
    record {
      live = ground arith;
      in_time = ground arith;
      views_left = ground arith;
      listed = ground arith;
      pin_fits = pin_refused_sound link.pin_hash pin (ground arith);
      usual = ground arith;
    },
    ground arith,
  )

  check_link_complete :
      (link : StoredLink) (ip agent : String) (pin : Option String) (now : ℕ)
      → Permits link ip pin now
      → (check_link hash link ip agent pin now).1 ≡ allowed link.conversation_id
  unfolding check_link ip_unlisted anomaly
  check_link_complete link ip agent pin now p =
      ground (arith, pin_refused_complete link.pin_hash pin p.pin_fits)

  -- A visitor is let in, to conversation `c`, exactly when the store holds a link under the token
  -- that leads to `c` and permits the visit: it is active, not past its date, has views left,
  -- lists the address if it lists any, fits the PIN if it has one, and either at most five
  -- addresses used it or this one did.
  pub allowed_iff :
      (token ip agent : String) (pin : Option String) (now : ℕ) (links : Store) (c : String)
      → ((validate_link_access hash token ip agent pin now links).1 ≡ allowed c) ↔ (
          (link : StoredLink) × (Dict.get token links ≡ some link)
          × Permits link ip pin now
          × (c ≡ link.conversation_id))
  unfolding validate_link_access
  allowed_iff token ip agent pin now links c = elim (Option-cases (Dict.get token links)) [
    | inl missing ↦ (λ h. ground arith, λ (link, found, _, _). ground arith)
    | inr (link, found) ↦ (
      λ h.
          let (permits, same) =
            check_link_sound link ip agent pin now c (rw (found, validate_link_access) at h) in
          (link, found, permits, same),
      λ (link', found', permits, same).
          let e : link' ≡ link = ground arith in
          rw (found, validate_link_access)
            (rw same (rw e (check_link_complete link ip agent pin now (rw e at permits)))),
    )
  ]
