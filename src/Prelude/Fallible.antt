-- ===== src/Prelude/Fallible.antt =====
-- A call that returns or raises: the exceptions of a module are a data type of its own.
use mathlib.Core.Path.{◌≡◌, refl, subst}
use mathlib.Core.Logic.{◌⊎◌, inl, inr}
use mathlib.Core.Bool.{Bool, true, false}
use minecraft_server_manager.Prelude.Tests.{if◌then◌else◌}

pub data Fallible (E A : Type 0) : Type 0 where
  done : A → Fallible E A
  failed : E → Fallible E A

infixl 5 ◌>>=◌ ◌>>◌
abbrev pub ◌>>=◌ : {E A B : Type 0} → Fallible E A → (A → Fallible E B) → Fallible E B
done a >>= f = f a
failed e >>= f = failed e

abbrev pub ◌>>◌ : {E B : Type 0} → Fallible E (Unit {0}) → Fallible E B → Fallible E B
m >> k = m >>= λ _. k

pub Fallible-cases :
    {E A : Type 0} (m : Fallible E A) → ((a : A) × (m ≡ done a)) ⊎ ((e : E) × (m ≡ failed e))
Fallible-cases (done a) = inl (a, refl)
Fallible-cases (failed e) = inr (e, refl)

-- A chain that returned has returned at each step.
pub >>=-done :
    {E A B : Type 0} (m : Fallible E A) (f : A → Fallible E B) {b : B}
    → (m >>= f) ≡ done b
    → (a : A) × (m ≡ done a) × (f a ≡ done b)
>>=-done (done a) f h = (a, refl, h)
>>=-done (failed e) f h = cc

pub done_injective : {E A : Type 0} {a b : A} → ◌≡◌ {A = Fallible E A} (done a) (done b) → a ≡ b
done_injective e = cc

-- `P` holds of what the call returns, if it returns.
pub data Ensures {E A : Type 0} (P : A → Type 0) : Fallible E A → Type 0 where
  holds : {a : A} → P a → Ensures P (done a)
  refused : {e : E} → Ensures P (failed e)

-- `if b: raise e`
abbrev pub refuse_if : {E : Type 0} → Bool → E → Fallible E (Unit {0})
refuse_if true e = failed e
refuse_if false e = done tt

module _ {E A : Type 0} {P : A → Type 0} where
  pub Ensures-done : {m : Fallible E A} {a : A} → Ensures P m → m ≡ done a → P a
  Ensures-done (holds h) e = subst P (cc) h
  Ensures-done refused e = cc

  pub Ensures-bind :
      {B : Type 0} {Q : B → Type 0} {m : Fallible E B} {f : B → Fallible E A}
      → Ensures Q m
      → ((b : B) → Q b → Ensures P (f b))
      → Ensures P (m >>= f)
  Ensures-bind (holds {a} h) k = k a h
  Ensures-bind refused k = refused

  -- What returns is known to have returned.
  pub Ensures-step :
      {B : Type 0} (m : Fallible E B) {f : B → Fallible E A}
      → ((b : B) → m ≡ done b → Ensures P (f b))
      → Ensures P (m >>= f)
  Ensures-step (done b) k = k b refl
  Ensures-step (failed e) k = refused

  pub Ensures-guard :
      (b : Bool) (e : E) {m : Fallible E A}
      → (b ≡ false → Ensures P m)
      → Ensures P (refuse_if b e >> m)
  Ensures-guard true e k = refused
  Ensures-guard false e k = k refl

  pub Ensures-if :
      (b : Bool) {m n : Fallible E A}
      → (b ≡ true → Ensures P m)
      → (b ≡ false → Ensures P n)
      → Ensures P (if b then m else n)
  Ensures-if true h k = h refl
  Ensures-if false h k = k refl

  pub Ensures-map :
      {Q : A → Type 0} {m : Fallible E A} → Ensures Q m → ((a : A) → Q a → P a) → Ensures P m
  Ensures-map (holds {a} h) k = holds (k a h)
  Ensures-map refused k = refused
