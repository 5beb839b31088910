-- ===== src/Prelude/Members.antt =====
-- Membership by recursion, which the tactics take apart.
use mathlib.Core.Path.{◌≡◌}
use mathlib.Core.Logic.{◌⊎◌, inl, inr, ◌↔◌}
use mathlib.Core.List.{List, [], ◌∷◌, ◌++◌}

module _ {A : Type 0} where
  abbrev pub In : A → List A → Type 0
  In x [] = ⊥
  In x (y ∷ ys) = (x ≡ y) ⊎ In x ys

  abbrev pub AllOf : (A → Type 0) → List A → Type 0
  AllOf P [] = Unit {0}
  AllOf P (x ∷ xs) = P x × AllOf P xs

  pub In-snoc : (x y : A) (xs : List A) → In x (xs ++ (y ∷ [])) ↔ (In x xs ⊎ (x ≡ y))
  In-snoc x y xs = (split xs, λ s. join xs s)
    where
      split : (xs : List A) → In x (xs ++ (y ∷ [])) → In x xs ⊎ (x ≡ y)
      split [] (inl e) = inr e
      split [] (inr h) = absurd h
      split (z ∷ xs) (inl e) = inl (inl e)
      split (z ∷ xs) (inr h) = elim (split xs h) [ inl m ↦ inl (inr m) | inr e ↦ inr e ]

      join : (xs : List A) → In x xs ⊎ (x ≡ y) → In x (xs ++ (y ∷ []))
      join [] (inl h) = absurd h
      join [] (inr e) = inl e
      join (z ∷ xs) (inl (inl e)) = inl e
      join (z ∷ xs) (inl (inr h)) = inr (join xs (inl h))
      join (z ∷ xs) (inr e) = inr (join xs (inr e))

  pub In-append : (x : A) (xs ys : List A) → In x (xs ++ ys) → In x xs ⊎ In x ys
  In-append x [] ys h = inr h
  In-append x (z ∷ xs) ys (inl e) = inl (inl e)
  In-append x (z ∷ xs) ys (inr h) = elim (In-append x xs ys h) [
    | inl m ↦ inl (inr m)
    | inr m ↦ inr m
  ]
