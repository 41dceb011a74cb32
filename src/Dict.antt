-- ===== src/Dict.antt =====
-- JavaScript's `Map` and plain objects used as tables, with string keys: a list of entries in
-- insertion order. `set` keeps the place of a key that is there and adds a new key at the end.
use pm_chat.Base.{
  String, subst, ◌≡◌, refl, Option, none, some, List, [], ◌∷◌, arith, eq_iff, eq_refl, ◌===◌,
  if◌then◌else◌, All, Bool, Bool-cases, inl, inr,
}

abbrev pub Dict {ℓ} : Type ℓ → Type ℓ
Dict V = List (String × V)

module _ {ℓ} {V : Type ℓ} where
  -- m.get(key)
  unfoldable pub get : (key : String) → Dict V → Option V
  get key [] = none
  get key ((name, held) ∷ rest) = if name === key then some held else get key rest

  -- m.set(key, new)
  unfoldable pub set : (key : String) → V → Dict V → Dict V
  set key new [] = (key, new) ∷ []
  set key new ((name, held) ∷ rest) =
      if name === key then (key, new) ∷ rest else (name, held) ∷ set key new rest

  -- m.delete(k)
  unfoldable pub delete : String → Dict V → Dict V
  delete k [] = []
  delete k ((j, v) ∷ m) = if j === k then delete k m else (j, v) ∷ delete k m

  -- a loop over the entries that deletes those which fail the test
  unfoldable pub retain : (V → Bool) → Dict V → Dict V
  retain p [] = []
  retain p ((j, v) ∷ m) = let rest = retain p m in if p v then (j, v) ∷ rest else delete j rest

  abbrev pub pass_if : (V → Bool) → Option V → Option V
  pass_if p none = none
  pass_if p (some v) = if p v then some v else none

  pub get-set :
      (k j : String) (v : V) (m : Dict V)
      → get j (set k v m) ≡ (if k === j then some v else get j m)
  unfolding get set
  get-set k j v [] = ground arith
  get-set k j v ((i, w) ∷ m) = ground (arith, eq_iff k j, eq_iff i k, eq_iff i j, get-set k j v m)

  pub get-set_self : (k : String) (v : V) (m : Dict V) → get k (set k v m) ≡ some v
  get-set_self k v m = ground (arith, eq_refl k, get-set k k v m)

  pub get-delete :
      (k j : String) (m : Dict V) → get j (delete k m) ≡ (if k === j then none else get j m)
  unfolding get delete
  get-delete k j [] = ground arith
  get-delete k j ((i, w) ∷ m) = ground (arith, eq_iff k j, eq_iff i k, eq_iff i j, get-delete k j m)

  pub get-retain :
      (k : String) (p : V → Bool) (m : Dict V) → get k (retain p m) ≡ pass_if p (get k m)
  unfolding get retain
  get-retain k p [] = refl
  get-retain k p ((j, v) ∷ m) =
      ground (arith, eq_iff j k, get-retain k p m, get-delete j k (retain p m))

  -- The values of a table.
  unfoldable pub values : Dict V → List V
  values [] = []
  values ((k, v) ∷ m) = v ∷ values m

module _ {ℓ κ} {V : Type ℓ} (P : String → V → Type κ) where
  -- Every entry has the property.
  abbrev pub Each : Dict V → Type κ
  Each m = All (λ e. P e.0 e.1) m

  pub Each-set : (k : String) (v : V) (m : Dict V) → P k v → Each m → Each (set k v m)
  unfolding set
  Each-set k v [] p h = (p, tt)
  Each-set k v ((j, w) ∷ m) p (q, h) = ground (arith, Each-set k v m p h)

  pub Each-delete : (k : String) (m : Dict V) → Each m → Each (delete k m)
  unfolding delete
  Each-delete k [] h = tt
  Each-delete k ((j, w) ∷ m) (q, h) = ground (arith, Each-delete k m h)

  pub Each-retain : (p : V → Bool) (m : Dict V) → Each m → Each (retain p m)
  unfolding retain
  Each-retain p [] h = tt
  Each-retain p ((j, w) ∷ m) (q, h) =
      ground (arith, Each-retain p m h, Each-delete j (retain p m) (Each-retain p m h))

  pub get-Each : (k : String) (v : V) (m : Dict V) → Each m → get k m ≡ some v → P k v
  unfolding get
  get-Each k v [] h e = absurd (ground arith)
  get-Each k v ((j, w) ∷ m) (q, h) e = elim (Bool-cases (j === k)) [
    | inl same ↦
        let at_key : j ≡ k = (eq_iff j k).0 same in
        let value : w ≡ v = ground arith in subst (λ x. P k x) value (subst (λ x. P x w) at_key q)
    | inr other ↦ get-Each k v m h (ground arith)
  ]
