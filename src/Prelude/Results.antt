-- ===== src/Prelude/Results.antt =====
-- Calls that may raise: a value, or the exception that ends the call.
use mathlib.Core.Bool.{Bool, true, false}
use mathlib.Core.Path.{◌≡◌, refl}
use linux_defragger.Prelude.Tests.{if◌then◌else◌}

pub data Result {ℓ} (E : Type 0) (A : Type ℓ) : Type ℓ where
  ok : A → Result E A
  err : E → Result E A

-- The rest of a block after a call that returns nothing, and after one that returns a value.
abbrev pub ◌>>◌ {ℓ} : {E : Type 0} {B : Type ℓ} → Result E (Unit {0}) → Result E B → Result E B
ok tt >> rest = rest
err e >> rest = err e

abbrev pub ◌>>=◌ {ℓ κ} :
    {E : Type 0} {A : Type ℓ} {B : Type κ} → Result E A → (A → Result E B) → Result E B
err e >>= rest = err e
ok value >>= rest = rest value

infixl 5 ◌>>=◌ ◌>>◌
-- `if test: raise e`
abbrev pub raise_if : {E : Type 0} → Bool → E → Result E (Unit {0})
raise_if true e = err e
raise_if false e = ok tt

-- The same outcome, with the exception named by the caller.
abbrev pub raise_as {ℓ} : {E F : Type 0} {A : Type ℓ} → (E → F) → Result E A → Result F A
raise_as name (ok value) = ok value
raise_as name (err e) = err (name e)

-- Every value that the call returns has the property; it may raise.
pub record OnOk {κ} {E A : Type 0} (P : A → Type κ) (r : Result E A) : Type κ where
  pub get : (a : A) → r ≡ ok a → P a

module _ {κ} {E A : Type 0} {P : A → Type κ} where
  pub OnOk-ok : {a : A} → P a → OnOk P (let r : Result E A = ok a in r)
  OnOk-ok {a} p = record { get = λ b e. (let same : a ≡ b = cc in rw (← same) p) }

  pub OnOk-err : (e : E) → OnOk P (err e)
  OnOk-err e = record { get = λ b h. absurd (cc) }

  pub OnOk-bind :
      {B : Type 0} (m : Result E B) (f : B → Result E A)
      → ((b : B) → m ≡ ok b → OnOk P (f b))
      → OnOk P (m >>= f)
  OnOk-bind (err e) f h = OnOk-err e
  OnOk-bind (ok b) f h = h b refl

  pub OnOk-guard :
      (b : Bool) (e : E) (k : Result E A) → (b ≡ false → OnOk P k) → OnOk P (raise_if b e >> k)
  OnOk-guard true e k h = OnOk-err e
  OnOk-guard false e k h = h refl

  pub OnOk-then : (m : Result E (Unit {0})) (k : Result E A) → OnOk P k → OnOk P (m >> k)
  OnOk-then (err e) k h = OnOk-err e
  OnOk-then (ok _) k h = h

  pub OnOk-if :
      (b : Bool) (x y : Result E A)
      → (b ≡ true → OnOk P x)
      → (b ≡ false → OnOk P y)
      → OnOk P (if b then x else y)
  OnOk-if true x y h k = h refl
  OnOk-if false x y h k = k refl

pub OnOk-weaken {κ κ'} :
    {E A : Type 0} {P : A → Type κ} {Q : A → Type κ'} (r : Result E A)
    → ((a : A) → P a → Q a)
    → OnOk P r
    → OnOk Q r
OnOk-weaken r h p = record { get = λ a e. h a (p.get a e) }

pub raise_as-ok :
    {E F A : Type 0} (name : E → F) (r : Result E A) (a : A) → raise_as name r ≡ ok a → r ≡ ok a
raise_as-ok name (ok b) a h = let same : b ≡ a = cc in rw same
raise_as-ok name (err e) a h = absurd (cc)
