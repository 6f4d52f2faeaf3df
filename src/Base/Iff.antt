-- ===== src/Base/Iff.antt =====
-- Equivalences: of propositions, of Boolean tests, and along a list.
use claw_hermes_ai_go.Base.{
  ◌≡◌, refl, ◌↔◌, ◌⊎◌, inl, inr, Bool, true, false, ◌||◌, List, [], ◌∷◌, All,
}

pub iff_trans : {A B C : Type 0} → A ↔ B → B ↔ C → A ↔ C
iff_trans f g = (λ a. g.0 (f.0 a), λ c. f.1 (g.1 c))

pub iff_both : {A B C D : Type 0} → A ↔ B → C ↔ D → (A × C) ↔ (B × D)
iff_both f g = (λ (a, c). (f.0 a, g.0 c), λ (b, d). (f.1 b, g.1 d))

pub iff_false : {A : Type 0} (b : Bool) → (b ≡ true) ↔ A → (b ≡ false) ↔ ¬ A
iff_false true f = (λ e a. cc, λ n. absurd (n (f.0 refl)))
iff_false false f = (λ e a. absurd (cc (f.1 a)), λ n. refl)

pub iff_or :
    {A B : Type 0} (a b : Bool) → (a ≡ true) ↔ A → (b ≡ true) ↔ B → (a || b ≡ true) ↔ (A ⊎ B)
iff_or true b f g = (λ e. inl (f.0 refl), λ h. refl)
iff_or false b f g = (λ e. inr (g.0 e), λ h. elim h [ inl a ↦ absurd (cc (f.1 a)) | inr x ↦ g.1 x ])

module _ {A : Type 0} where
  pub All-iff : {P Q : A → Type 0} (xs : List A) → ((x : A) → P x ↔ Q x) → All P xs ↔ All Q xs
  All-iff [] f = (λ h. h, λ h. h)
  All-iff (x ∷ xs) f = iff_both (f x) (All-iff xs f)
