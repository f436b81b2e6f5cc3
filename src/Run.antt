-- ===== src/Run.antt =====
-- A Rust function that returns a `Result` and may panic.
use eafcc_core.Prelude.{◌≡◌, ◌⊎◌, inl, inr, refl}
use eafcc_core.Outcome.{Outcome, done, panic}

pub data Run {ℓ κ} (E : Type ℓ) (A : Type κ) : Type (ℓ ⊔ κ) where
  ok : A → Run E A
  err : E → Run E A
  panicked : Run E A

infixl 5 ◌>>=◌
abbrev pub ◌>>=◌ {ℓ κ μ} :
    {E : Type ℓ} {A : Type κ} {B : Type μ} → Run E A → (A → Run E B) → Run E B
ok a >>= f = f a
err e >>= f = err e
panicked >>= f = panicked

-- The conversion of the error by `?`.
abbrev pub map_err {ℓ κ μ} : {E : Type ℓ} {F : Type κ} {A : Type μ} → (E → F) → Run E A → Run F A
map_err f (ok a) = ok a
map_err f (err e) = err (f e)
map_err f panicked = panicked

abbrev pub lift {ℓ κ} : {E : Type ℓ} {A : Type κ} → Outcome A → Run E A
lift (done a) = ok a
lift panic = panicked

-- Where a chain gives a value, so does its first step.
pub >>=-eq-ok {ℓ κ μ} :
    {E : Type ℓ} {A : Type κ} {B : Type μ} (r : Run E A) (next : A → Run E B) {out : B}
    → (r >>= next) ≡ ok out
    → (a : A) × (r ≡ ok a) × (next a ≡ ok out)
>>=-eq-ok panicked next same = cc
>>=-eq-ok (err e) next same = cc
>>=-eq-ok (ok a) next same = (a, refl, same)

-- Where a chain gives an error, one of its steps does.
pub >>=-eq-err {ℓ κ μ} :
    {E : Type ℓ} {A : Type κ} {B : Type μ} (r : Run E A) (next : A → Run E B) {e : E}
    → (r >>= next) ≡ err e
    → (r ≡ err e) ⊎ ((a : A) × (r ≡ ok a) × (next a ≡ err e))
>>=-eq-err panicked next same = cc
>>=-eq-err (err e) next same = inl (cc)
>>=-eq-err (ok a) next same = inr (a, refl, same)

pub ok-injective {ℓ κ} :
    {E : Type ℓ} {A : Type κ} {a b : A} → ◌≡◌ {A = Run E A} (ok a) (ok b) → a ≡ b
ok-injective e = cc
