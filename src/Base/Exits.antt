-- ===== src/Base/Exits.antt =====
-- What a run comes to, step by step: it ends the process or returns, and what holds if it returns.
use mathlib.Core.Path.{◌≡◌, refl, sym, ◌∙◌, subst}
use mathlib.Core.Logic.{◌⊎◌, inl, inr}
use libm2handler.Base.Run.{Outcome, ret, aborts, faults, blocks, exits, ◌>>=◌}

-- The run exits, or returns a value with the property.
abbrev pub ExitsOr {ℓ κ} : {A : Type ℓ} → Outcome A → (A → Type κ) → Type (ℓ ⊔ κ)
ExitsOr {A = A} o P = (o ≡ exits) ⊎ ((a : A) × (o ≡ ret a) × P a)

pub ExitsOr-bind {ℓ κ μ ν} :
    {A : Type ℓ} {B : Type κ} {P : A → Type μ} {Q : B → Type ν} (o : Outcome A) (f : A → Outcome B)
    → ExitsOr o P
    → ((a : A) → P a → ExitsOr (f a) Q)
    → ExitsOr (o >>= f) Q
ExitsOr-bind o f (inl e) h = inl (rw e)
ExitsOr-bind o f (inr (a, e, p)) h = elim (h a p) [
  | inl gone ↦ inl (rw e gone)
  | inr (b, d, q) ↦ inr (b, rw e d, q)
]

-- What the run returns, if it returns, has the property.
abbrev pub Always {ℓ κ} : {A : Type ℓ} → Outcome A → (A → Type κ) → Type κ
Always (ret a) P = P a
Always aborts P = Unit
Always faults P = Unit
Always blocks P = Unit
Always exits P = Unit

pub Always-bind {ℓ κ μ ν} :
    {A : Type ℓ} {B : Type κ} (P : A → Type μ) (Q : B → Type ν) (o : Outcome A) (f : A → Outcome B)
    → Always o P
    → ((a : A) → P a → Always (f a) Q)
    → Always (o >>= f) Q
Always-bind P Q (ret a) f p h = h a p
Always-bind P Q aborts f p h = tt
Always-bind P Q faults f p h = tt
Always-bind P Q blocks f p h = tt
Always-bind P Q exits f p h = tt

-- With nothing known of what the first part returns.
pub Always-after {ℓ κ ν} :
    {A : Type ℓ} {B : Type κ} (Q : B → Type ν) (o : Outcome A) (f : A → Outcome B)
    → ((a : A) → Always (f a) Q)
    → Always (o >>= f) Q
Always-after Q (ret a) f h = h a
Always-after Q aborts f h = tt
Always-after Q faults f h = tt
Always-after Q blocks f h = tt
Always-after Q exits f h = tt

-- What a run that returned came by.
pub Always-ret {ℓ κ} :
    {A : Type ℓ} (P : A → Type κ) (o : Outcome A) (a : A) → Always o P → o ≡ ret a → P a
Always-ret P o a always e = subst (λ x. Always x P) e always

pub ret-injective {ℓ} : {A : Type ℓ} {a b : A} → ◌≡◌ {A = Outcome A} (ret a) (ret b) → b ≡ a
ret-injective {a = a} {b = b} e = Always-ret (λ x. x ≡ a) (ret a) b refl e

pub ExitsOr-ret {ℓ κ} :
    {A : Type ℓ} (P : A → Type κ) (o : Outcome A) (a : A) → ExitsOr o P → o ≡ ret a → P a
ExitsOr-ret P o a (inl gone) e = absurd (cc)
ExitsOr-ret P o a (inr (b, e', p)) e = subst P (sym (ret-injective (sym e' ∙ e))) p

pub returned {ℓ κ} :
    {A : Type ℓ} {B : Type κ} (o : Outcome A) (f : A → Outcome B) (b : B)
    → o >>= f ≡ ret b
    → (a : A) × (o ≡ ret a) × (f a ≡ ret b)
returned (ret a) f b e = (a, refl, e)
returned aborts f b e = cc
returned faults f b e = cc
returned blocks f b e = cc
returned exits f b e = cc

pub Always-when {ℓ κ} :
    {A : Type ℓ} (P : A → Type κ) (o : Outcome A) → ((a : A) → o ≡ ret a → P a) → Always o P
Always-when P (ret a) h = h a refl
Always-when P aborts h = tt
Always-when P faults h = tt
Always-when P blocks h = tt
Always-when P exits h = tt

pub Always-weaken {ℓ κ μ} :
    {A : Type ℓ} (P : A → Type κ) (Q : A → Type μ) (o : Outcome A)
    → Always o P
    → ((a : A) → P a → Q a)
    → Always o Q
Always-weaken P Q o p h = Always-when Q o λ a e. h a (Always-ret P o a p e)
