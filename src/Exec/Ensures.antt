-- ===== src/Exec/Ensures.antt =====
-- Code that keeps an invariant of its state, and returns only values with a property: one rule for
-- each way in which the methods are put together.
use shop_catalog_service.Common.{ap, refl, ◌≡◌, Bool, true, false, if◌then◌else◌}
use shop_catalog_service.Errors.{Error}
use shop_catalog_service.Exec.{Result, ok, err, panic, Exec, pure, fail, lift, handle, continue}

-- A result that is a value has the property.
abbrev pub Post : {A : Type 0} → (A → Type 0) → Result A → Type 0
Post Q (ok a) = Q a
Post Q (err e) = Unit
Post Q panic = Unit

pub record Ensures {S A : Type 0} (I : S → Type 0) (Q : A → Type 0) (m : Exec S A) : Type 0 where
  pub at : (s : S) → I s → I (m s).1 × Post Q (m s).0

module _ {S : Type 0} (I : S → Type 0) where
  pub Ensures-pure : {A : Type 0} (Q : A → Type 0) (a : A) → Q a → Ensures I Q (pure a)
  Ensures-pure Q a q = record { at = λ s i. (i, q) }

  pub Ensures-fail : {A : Type 0} (Q : A → Type 0) (e : Error) → Ensures I Q (fail e)
  Ensures-fail Q e = record { at = λ s i. (i, tt) }

  pub Ensures-lift : {A : Type 0} (Q : A → Type 0) (r : Result A) → Post Q r → Ensures I Q (lift r)
  Ensures-lift Q r q = record { at = λ s i. (i, q) }

  pub Ensures-if :
      {A : Type 0} (Q : A → Type 0) (b : Bool) (m n : Exec S A)
      → Ensures I Q m
      → Ensures I Q n
      → Ensures I Q (if b then m else n)
  Ensures-if Q true m n h k = h
  Ensures-if Q false m n h k = k

  pub Ensures-handle :
      {A B : Type 0} (P : A → Type 0) (Q : B → Type 0) (m : Exec S A) (f : Error → Exec S B)
      (g : A → Exec S B)
      → Ensures I P m
      → ((e : Error) → Ensures I Q (f e))
      → ((a : A) → P a → Ensures I Q (g a))
      → Ensures I Q (handle m f g)
  Ensures-handle P Q m f g hm hf hg = record {
    at = λ s i. go (m s).0 (m s).1 (hm.at s i).0 (hm.at s i).1;
  }
    where
      go :
          (r : Result _) (s : S)
          → I s
          → Post P r
          → I (continue r f g s).1 × Post Q (continue r f g s).0
      go (ok a) s i p = (hg a p).at s i
      go (err e) s i p = (hf e).at s i
      go panic s i p = (i, tt)

-- Every result has the property that says nothing.
pub any : {A : Type 0} (r : Result A) → Post (λ _. Unit {0}) r
any (ok a) = tt
any (err e) = tt
any panic = tt

-- What holds of the value that a result is, holds of the result.
pub of_value : {A : Type 0} (Q : A → Type 0) (r : Result A) → ((a : A) → r ≡ ok a → Q a) → Post Q r
of_value Q (ok a) h = h a refl
of_value Q (err e) h = tt
of_value Q panic h = tt

-- A property of how `handle` ends, from how its first part ends.
pub handle_cases :
    {S A B : Type 0} (P : Result B → S → Type 0) (m : Exec S A) (f : Error → Exec S B)
    (g : A → Exec S B) (s : S)
    → ((a : A) (s' : S) → m s ≡ (ok a, s') → P (g a s').0 (g a s').1)
    → ((e : Error) (s' : S) → m s ≡ (err e, s') → P (f e s').0 (f e s').1)
    → ((s' : S) → m s ≡ (panic, s') → P panic s')
    → P (handle m f g s).0 (handle m f g s).1
handle_cases {S} {A} {B} P m f g s on_ok on_err on_panic = go (m s).0 (m s).1 refl
  where
    go : (r : Result A) (s' : S) → m s ≡ (r, s') → P (continue r f g s').0 (continue r f g s').1
    go (ok a) s' e = on_ok a s' e
    go (err x) s' e = on_err x s' e
    go panic s' e = on_panic s' e

-- A call whose error is only logged leaves the state that the call left.
pub logged :
    {S : Type 0} (P : S → Type 0) (m : Exec S (Unit {0})) (s : S)
    → P (m s).1
    → P (handle m (λ _. pure tt) pure s).1
logged P m s = go (m s).0 (m s).1
  where
    go : (r : Result (Unit {0})) (s' : _) → P s' → P (continue r (λ _. pure tt) pure s').1
    go (ok _) s' h = h
    go (err e) s' h = h
    go panic s' h = h

-- `handle` where its first part succeeds.
pub handle_ok :
    {S A B : Type 0} (m : Exec S A) (f : Error → Exec S B) (g : A → Exec S B) (s : S) (a : A)
    → (m s).0 ≡ ok a
    → handle m f g s ≡ g a (m s).1
handle_ok m f g s a h = ap (λ r. continue r f g (m s).1) h

-- A result that is no value has every property.
pub Post-nothing : {A : Type 0} (Q : A → Type 0) (r : Result A) → Post (λ _. ⊥) r → Post Q r
Post-nothing Q (ok a) h = absurd h
Post-nothing Q (err e) h = tt
Post-nothing Q panic h = tt
