-- ===== src/Services.antt =====
-- The services that the server calls, as parameters: their operations, and the laws that their
-- documentation promises. Any operation may fail, where the code's promise rejects.
pub mod Redis
pub mod Mongo
pub mod Rest
pub mod Memory
pub mod MemoryRest
use pm_chat.Base.{◌≡◌, refl, ◌⊎◌, inl, inr}

pub data Answer {ℓ} (A : Type ℓ) : Type ℓ where
  failed : Answer A
  got : A → Answer A

pub Answer-cases {ℓ} : {A : Type ℓ} (a : Answer A) → (a ≡ failed) ⊎ ((x : A) × (a ≡ got x))
Answer-cases failed = inl refl
Answer-cases (got x) = inr (x, refl)

-- What is left when a call that rejects is not followed up.
abbrev pub or_same {ℓ} : {A : Type ℓ} → A → Answer A → A
or_same a failed = a
or_same a (got b) = b
