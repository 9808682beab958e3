-- ===== src/Errors/Laws.antt =====
-- What a successful chain of steps that may fail says of its steps.
use tamga_go.Base.{
  ◌⊎◌, inl, inr, ap, true, false, Bool, if◌then◌else◌, ◌≡◌, refl, Option, none, some,
}
use tamga_go.Errors.{Result, ok, err, GoError, ◌>>=◌, ◌>>◌, or_fail}

pub bind-eq-ok :
    {A B : Type 0} (m : Result A) (f : A → Result B) (y : B)
    → (m >>= f) ≡ ok y
    → (x : A) × (m ≡ ok x) × (f x ≡ ok y)
bind-eq-ok (ok x) f y e = (x, refl, e)
bind-eq-ok (err x) f y e = absurd (cc)

pub then-eq-ok :
    {B : Type 0} (m : Result (Unit {0})) (k : Result B) (y : B)
    → (m >> k) ≡ ok y
    → (m ≡ ok tt) × (k ≡ ok y)
then-eq-ok (ok tt) k y e = (refl, e)
then-eq-ok (err x) k y e = absurd (cc)

pub or_fail-eq-ok :
    {A : Type 0} (o : Option A) (e : GoError) (y : A) → or_fail o e ≡ ok y → o ≡ some y
or_fail-eq-ok none e y q = cc
or_fail-eq-ok (some x) e y q = cc

-- A guard that refuses did not, where the result is good.
pub guard-eq-ok :
    {A : Type 0} (b : Bool) (e : GoError) (r : Result A) (y : A)
    → (if b then err e else r) ≡ ok y
    → (b ≡ false) × (r ≡ ok y)
guard-eq-ok true e r y q = absurd (cc)
guard-eq-ok false e r y q = (refl, q)

pub guard-of_false :
    {A : Type 0} (b : Bool) (e : GoError) (r : Result A) → b ≡ false → (if b then err e else r) ≡ r
guard-of_false b e r n = rw n refl

pub bind-of_ok :
    {A B : Type 0} (m : Result A) (f : A → Result B) (x : A) → m ≡ ok x → (m >>= f) ≡ f x
bind-of_ok m f x e = ap (λ m. m >>= f) e

pub allowed-eq-ok :
    {A : Type 0} (b : Bool) (r : Result A) (e : GoError) (y : A)
    → (if b then r else err e) ≡ ok y
    → (b ≡ true) × (r ≡ ok y)
allowed-eq-ok true r e y q = (refl, q)
allowed-eq-ok false r e y q = absurd (cc)

pub ok-injective : {A : Type 0} {x y : A} → ◌≡◌ {A = Result A} (ok x) (ok y) → x ≡ y
ok-injective q = cc

-- A conditional is one of its branches.
pub branch_of :
    {A : Type 0} (b : Bool) (r s y : A)
    → (if b then r else s) ≡ y
    → ((b ≡ true) × (r ≡ y)) ⊎ ((b ≡ false) × (s ≡ y))
branch_of true r s y q = inl (refl, q)
branch_of false r s y q = inr (refl, q)
