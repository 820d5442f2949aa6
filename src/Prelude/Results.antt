-- ===== src/Prelude/Results.antt =====
-- Proofs about a conditional and about a chain of Options, which follow the code's branches.
use mathlib.Core.Path.{◌≡◌, refl, subst, ap, sym, ◌∙◌}
use mathlib.Core.Bool.{Bool, true, false, ◌&&◌}
use mathlib.Core.Option.{Option, none, some}
use collaborative_ide.Prelude.Tests.{if◌then◌else◌, ◌>>=◌, some_inj, bind_some}

module _ {ℓ κ} {A : Type ℓ} (P : A → Type κ) where
  pub if_intro :
      (b : Bool) {x y : A} → (b ≡ true → P x) → (b ≡ false → P y) → P (if b then x else y)
  if_intro true h k = h refl
  if_intro false h k = k refl

  -- It holds of the result, if there is one.
  abbrev pub OnSome : Option A → Type κ
  OnSome none = Unit
  OnSome (some a) = P a

  pub OnSome-intro : (o : Option A) → ((a : A) → o ≡ some a → P a) → OnSome o
  OnSome-intro none k = tt
  OnSome-intro (some a) k = k a refl

  pub OnSome-elim : (o : Option A) (a : A) → OnSome o → o ≡ some a → P a
  OnSome-elim none a k e = absurd (cc e)
  OnSome-elim (some b) a k e = subst P (some_inj b a e) k

  pub OnSome-bind {μ} :
      {B : Type μ} (o : Option B) (f : B → Option A)
      → ((b : B) → o ≡ some b → OnSome (f b))
      → OnSome (o >>= f)
  OnSome-bind none f k = tt
  OnSome-bind (some b) f k = k b refl

module _ {ℓ κ} {A : Type ℓ} (P : A → Type κ) where
  -- There is a result, and it holds of it.
  abbrev pub Gives : Option A → Type (ℓ ⊔ κ)
  Gives o = (a : A) × (o ≡ some a) × P a

  pub Gives-bind {μ} :
      {B : Type μ} (o : Option B) (b : B) (f : B → Option A)
      → o ≡ some b
      → Gives (f b)
      → Gives (o >>= f)
  Gives-bind o b f e (a, found, h) = (a, bind_some o f b e ∙ found, h)

  pub Gives-OnSome : (o : Option A) → Gives o → OnSome P o
  Gives-OnSome o (a, found, h) = subst (OnSome P) (sym found) h

pub if_of_true {ℓ} : {A : Type ℓ} (b : Bool) (x y : A) → b ≡ true → (if b then x else y) ≡ x
if_of_true b x y e = ap (λ b'. if b' then x else y) e

pub if_of_false {ℓ} : {A : Type ℓ} (b : Bool) (x y : A) → b ≡ false → (if b then x else y) ≡ y
if_of_false b x y e = ap (λ b'. if b' then x else y) e

pub OnSome-map {ℓ κ μ ν} :
    {A : Type ℓ} {B : Type μ} (P : A → Type κ) (Q : B → Type ν) (o : Option A) (f : A → B)
    → ((a : A) → P a → Q (f a))
    → OnSome P o
    → OnSome Q (o >>= λ a. some (f a))
OnSome-map P Q none f k h = tt
OnSome-map P Q (some a) f k h = k a h

pub OnSome-weaken {ℓ κ ν} :
    {A : Type ℓ} (P : A → Type κ) (Q : A → Type ν) (o : Option A)
    → ((a : A) → P a → Q a)
    → OnSome P o
    → OnSome Q o
OnSome-weaken P Q none k h = tt
OnSome-weaken P Q (some a) k h = k a h

pub &&-true : (a b : Bool) → a && b ≡ true → (a ≡ true) × (b ≡ true)
&&-true true true e = (refl, refl)
&&-true true false e = absurd (cc e)
&&-true false b e = absurd (cc e)
