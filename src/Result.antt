-- ===== src/Result.antt =====
-- How a call ends: with a value, or with the exception that it raises. The texts of the messages
-- are left out; an exception is the class that its handlers can tell apart.
use lustre_test_vms.Base.{◌≡◌, refl, ◌⊎◌, inl, inr}

pub data Err : Type 0 where
  value_error : Err
  -- `ClaimError`, and its subclass `ClaimHeld`
  claim_error : Err
  claim_held : Err
  -- `StorageError`
  storage_error : Err
  os_error : Err
  -- `subprocess.CalledProcessError`
  command_failed : Err
  -- `die()` and `sys.exit(1)`
  exit : Err

pub data Result {ℓ} (A : Type ℓ) : Type ℓ where
  ok : A → Result A
  err : Err → Result A

-- The result of a call that returns nothing.
abbrev pub Done : Type 0
Done = Unit

-- Calls that change a state; what was written before an exception stays written.
abbrev pub Action {ℓ κ} : Type ℓ → Type κ → Type (ℓ ⊔ κ)
Action S A = S → Result A × S

module _ {ℓ κ} {S : Type ℓ} {A : Type κ} where
  abbrev pub pure : A → Action S A
  pure a s = (ok a, s)

  abbrev pub raise : Err → Action S A
  raise e s = (err e, s)

  abbrev pub lift : Result A → Action S A
  lift r s = (r, s)

module _ {ℓ κ μ} {S : Type ℓ} {A : Type κ} {B : Type μ} where
  infixl 5 ◌>>=◌ ◌>>◌
  abbrev pub ◌>>=◌ : Action S A → (A → Action S B) → Action S B
  ◌>>=◌ m k s = elim (m s).0 [ ok a ↦ k a (m s).1 | err e ↦ (err e, (m s).1) ]

  abbrev pub ◌>>◌ : Action S A → Action S B → Action S B
  m >> k = m >>= λ _. k

pub Result-cases {ℓ} :
    {A : Type ℓ} (r : Result A) → ((a : A) × (r ≡ ok a)) ⊎ ((e : Err) × (r ≡ err e))
Result-cases (ok a) = inl (a, refl)
Result-cases (err e) = inr (e, refl)
