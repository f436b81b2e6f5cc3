-- ===== src/Outcome.antt =====
-- What a Rust expression does: it gives a value, or it panics and the thread unwinds.
use eafcc_core.Prelude.{◌≡◌, refl, Option, none, some}

pub data Outcome {ℓ} (A : Type ℓ) : Type ℓ where
  done : A → Outcome A
  panic : Outcome A

infixl 5 ◌>>=◌
abbrev pub ◌>>=◌ {ℓ κ} : {A : Type ℓ} {B : Type κ} → Outcome A → (A → Outcome B) → Outcome B
done a >>= f = f a
panic >>= f = panic

-- `o.expect(…)`, and the indexing of the library where it is out of range.
abbrev pub expect {ℓ} : {A : Type ℓ} → Option A → Outcome A
expect none = panic
expect (some a) = done a

-- Where a chain gives a value, so does its first step.
pub >>=-eq-done {ℓ κ} :
    {A : Type ℓ} {B : Type κ} (o : Outcome A) (next : A → Outcome B) {out : B}
    → (o >>= next) ≡ done out
    → (a : A) × (o ≡ done a) × (next a ≡ done out)
>>=-eq-done panic next same = cc
>>=-eq-done (done a) next same = (a, refl, same)

pub done-injective {ℓ} : {A : Type ℓ} {a b : A} → done a ≡ done b → a ≡ b
done-injective e = cc
