-- ===== src/Common/Equality.antt =====
-- Python's `==` as an interface, its instances, and membership by it.
use Prim.Native.Nat.{ℕ}
use Prim.Native.String.{String}
use mathlib.Core.Path.{◌≡◌, refl, ap}
use mathlib.Core.Logic.{◌↔◌}
use mathlib.Core.Bool.{Bool, true, false, ◌&&◌, ◌||◌}
use mathlib.Core.Option.{Option, none, some}
use mathlib.Core.List.{List, [], ◌∷◌}
use native.Mathlib.Omega.{arith}
use text.Mathlib.Text.{◌==◌ as str_eq}
use text.Mathlib.TextEquality.{eq_iff}
use enterprise_ai_knowledge.Common.Tests.{nat_beq, nat_beq_iff}
use enterprise_ai_knowledge.Common.Lists.{all_of}

pub record Eq {ℓ} (A : Type ℓ) : Type ℓ where
  pub same : A → A → Bool
  pub same_iff : (a b : A) → (same a b ≡ true) ↔ (a ≡ b)

infix 50 ◌==◌
abbrev pub ◌==◌ {ℓ} : {A : Type ℓ} ⦃e : Eq A⦄ → A → A → Bool
◌==◌ ⦃e⦄ = e.same

abbrev pub ==_iff {ℓ} : {A : Type ℓ} ⦃e : Eq A⦄ (a b : A) → ((a == b) ≡ true) ↔ (a ≡ b)
==_iff ⦃e⦄ = e.same_iff

instance abbrev pub nat_eq : Eq ℕ
nat_eq = record { same = nat_beq; same_iff = nat_beq_iff }

-- Enumerations are compared by a number that tells their members apart.
abbrev pub eq_by_code {ℓ} :
    {A : Type ℓ} (code : A → ℕ) → ((a b : A) → code a ≡ code b → a ≡ b) → Eq A
eq_by_code code inj = record {
  same = λ a b. nat_beq (code a) (code b);
  same_iff =
      λ a b. ((λ h. inj a b ((nat_beq_iff _ _).0 h)), (λ h. (nat_beq_iff _ _).1 (ap code h)));
}

module _ {ℓ} {A : Type ℓ} ⦃e : Eq A⦄ where
  pub eq_refl : (a : A) → (a == a) ≡ true
  eq_refl a = (e.same_iff a a).1 refl

  abbrev pub option_beq : Option A → Option A → Bool
  option_beq none none = true
  option_beq none (some b) = false
  option_beq (some a) none = false
  option_beq (some a) (some b) = a == b

  pub option_beq_iff : (a b : Option A) → (option_beq a b ≡ true) ↔ (a ≡ b)
  option_beq_iff none none = ((λ h. refl), (λ h. refl))
  option_beq_iff none (some b) = ((λ h. cc), (λ h. cc))
  option_beq_iff (some a) none = ((λ h. cc), (λ h. cc))
  option_beq_iff (some a) (some b) =
      ((λ h. ap some ((e.same_iff a b).0 h)), (λ h. ground (arith, e.same_iff a b)))

  -- `a in xs`
  abbrev pub contains : List A → A → Bool
  contains [] a = false
  contains (x ∷ xs) a = a == x || contains xs a

  abbrev pub list_beq : List A → List A → Bool
  list_beq [] [] = true
  list_beq [] (b ∷ bs) = false
  list_beq (a ∷ as') [] = false
  list_beq (a ∷ as') (b ∷ bs) = a == b && list_beq as' bs

  pub list_beq_iff : (a b : List A) → (list_beq a b ≡ true) ↔ (a ≡ b)
  list_beq_iff [] [] = ((λ h. refl), (λ h. refl))
  list_beq_iff [] (b ∷ bs) = ((λ h. cc), (λ h. cc))
  list_beq_iff (a ∷ as') [] = ((λ h. cc), (λ h. cc))
  list_beq_iff (a ∷ as') (b ∷ bs) = (
    (λ h. ground (arith, e.same_iff a b, list_beq_iff as' bs)),
    (λ h. ground (arith, e.same_iff a b, list_beq_iff as' bs)),
  )

instance abbrev pub string_eq : Eq String
string_eq = record { same = str_eq; same_iff = eq_iff }

instance abbrev pub option_eq {ℓ} : {A : Type ℓ} ⦃e : Eq A⦄ → Eq (Option A)
option_eq = record { same = option_beq; same_iff = option_beq_iff }

instance abbrev pub list_eq {ℓ} : {A : Type ℓ} ⦃e : Eq A⦄ → Eq (List A)
list_eq = record { same = list_beq; same_iff = list_beq_iff }

module _ {ℓ κ} {A : Type ℓ} {B : Type κ} ⦃e : Eq A⦄ ⦃f : Eq B⦄ where
  abbrev pub pair_beq : A × B → A × B → Bool
  pair_beq (a, b) (c, d) = a == c && b == d

  pub pair_beq_iff : (p q : A × B) → (pair_beq p q ≡ true) ↔ (p ≡ q)
  pair_beq_iff (a, b) (c, d) = (
    (λ h. ground (arith, e.same_iff a c, f.same_iff b d)),
    (λ h. ground (arith, e.same_iff a c, f.same_iff b d)),
  )

instance abbrev pub pair_eq {ℓ κ} : {A : Type ℓ} {B : Type κ} ⦃e : Eq A⦄ ⦃f : Eq B⦄ → Eq (A × B)
pair_eq = record { same = pair_beq; same_iff = pair_beq_iff }

-- A member of the list has what all members have.
pub contains-all {ℓ} :
    {A : Type ℓ} ⦃e : Eq A⦄ (p : A → Bool) (a : A) (xs : List A)
    → all_of p xs ≡ true
    → contains xs a ≡ true
    → p a ≡ true
contains-all ⦃e⦄ p a [] h m = cc
contains-all ⦃e⦄ p a (x ∷ xs) h m = ground (arith, e.same_iff a x, contains-all p a xs)
