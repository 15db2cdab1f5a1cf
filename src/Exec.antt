-- ===== src/Exec.antt =====
-- How a Go function runs in the model: it takes a state to a state, and returns a value, returns an
-- error, or panics (a nil dereference, a slice out of range).
pub mod Ensures
use shop_catalog_service.Common.{◌≡◌, refl, Option, none, some}
use shop_catalog_service.Errors.{Error}

pub data Result {ℓ} (A : Type ℓ) : Type ℓ where
  ok : A → Result A
  err : Error → Result A
  panic : Result A

abbrev pub Exec : Type 0 → Type 0 → Type 0
Exec S A = S → Result A × S

module _ {S A : Type 0} where
  abbrev pub pure : A → Exec S A
  pure a s = (ok a, s)

  abbrev pub fail : Error → Exec S A
  fail e s = (err e, s)

  abbrev pub crash : Exec S A
  crash s = (panic, s)

  -- A pointer that is dereferenced.
  abbrev pub deref : Option A → Exec S A
  deref none = crash
  deref (some a) = pure a

module _ {S A B : Type 0} where
  -- `v, err := m; if err != nil { return on_err }; on_ok`; a panic goes on up.
  abbrev pub continue : Result A → (Error → Exec S B) → (A → Exec S B) → Exec S B
  continue (ok a) on_err on_ok = on_ok a
  continue (err e) on_err on_ok = on_err e
  continue panic on_err on_ok = crash

  abbrev pub handle : Exec S A → (Error → Exec S B) → (A → Exec S B) → Exec S B
  handle m on_err on_ok s = let (r, s') = m s in continue r on_err on_ok s'

  infixl 5 ◌>>=◌ ◌>>◌
  abbrev pub ◌>>=◌ : Exec S A → (A → Exec S B) → Exec S B
  m >>= f = handle m fail f

  abbrev pub ◌>>◌ : Exec S A → Exec S B → Exec S B
  m >> n = m >>= λ _. n

-- The result is an outcome of the call, not a panic.
abbrev pub Returns {ℓ} : {A : Type ℓ} → Result A → Type 0
Returns (ok _) = Unit
Returns (err _) = Unit
Returns panic = ⊥

-- A result that a call of other code has at once, the state unchanged.
abbrev pub lift : {S A : Type 0} → Result A → Exec S A
lift r s = (r, s)

pub ok_inj : {A : Type 0} {a b : A} → ok a ≡ ok b → a ≡ b
ok_inj e = cc
