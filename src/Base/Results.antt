-- ===== src/Base/Results.antt =====
-- Results that are there and have a property.
use mathlib.Core.Path.{◌≡◌, refl}
use mathlib.Core.Bool.{Bool, true, false}
use mathlib.Core.Option.{Option, none, some}
use xrune.Base.Tests.{if◌then◌else◌, ◌>>=◌}

-- The result is there, and has the property.
abbrev pub Finds {ℓ} : {A : Type ℓ} → (A → Type 0) → Option A → Type 0
Finds P none = ⊥
Finds P (some a) = P a

pub Finds-if {ℓ} :
    {A : Type ℓ} (P : A → Type 0) (b : Bool) (x y : Option A)
    → (b ≡ true → Finds P x)
    → (b ≡ false → Finds P y)
    → Finds P (if b then x else y)
Finds-if P true x y h k = h refl
Finds-if P false x y h k = k refl

pub Finds-weaken {ℓ} :
    {A : Type ℓ} (P Q : A → Type 0) (o : Option A) → ((a : A) → P a → Q a) → Finds P o → Finds Q o
Finds-weaken P Q none k h = h
Finds-weaken P Q (some a) k h = k a h

pub Finds-bind :
    {A B : Type 0} (P : A → Type 0) (Q : B → Type 0) (o : Option A) (k : A → Option B)
    → Finds P o
    → ((a : A) → P a → Finds Q (k a))
    → Finds Q (o >>= k)
Finds-bind P Q none k h f = elim h [ ]
Finds-bind P Q (some a) k h f = f a h

pub if_holds {ℓ κ} :
    {A : Type ℓ} (P : A → Type κ) (b : Bool) (x y : A)
    → (b ≡ true → P x)
    → (b ≡ false → P y)
    → P (if b then x else y)
if_holds P true x y h k = h refl
if_holds P false x y h k = k refl
