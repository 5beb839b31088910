-- ===== src/BasicStruct/Sequence.antt =====
-- What a sequence container promises: the calls, their replies, and a list that answers them.
use rock_coro.Prelude.{
  ℕ, ◌≡◌, refl, ap, ◌⊎◌, inl, inr, Option, none, some, List, [], ◌∷◌, ◌++◌, get_elem?, length,
}

pub data Op (A : Type 0) : Type 0 where
  push : A → Op A
  emplace : A → Op A
  pop : Op A
  at : ℕ → Op A
  wipe : Op A
  duplicate : Op A
  count : Op A

pub data Reply (A : Type 0) : Type 0 where
  done : Reply A
  value : A → Reply A
  number : ℕ → Reply A
  -- A call that left its buffer, or used an object where there is none.
  overran : Reply A

module _ {A : Type 0} where
  abbrev pub answer : {S : Type 0} → S → Option A → Option (S × Reply A)
  answer s none = none
  answer s (some x) = some (s, value x)

  abbrev pub popped : {S : Type 0} → Option S → Option (S × Reply A)
  popped none = none
  popped (some s) = some (s, done)

  -- The list without its last element.
  abbrev pub drop_last : List A → Option (List A)
  drop_last [] = none
  drop_last (x ∷ []) = some []
  drop_last (x ∷ y ∷ xs) = elim (drop_last (y ∷ xs)) [ none ↦ none | some ys ↦ some (x ∷ ys) ]

  abbrev pub list_step : List A → Op A → Option (List A × Reply A)
  list_step xs (push x) = some (xs ++ (x ∷ []), done)
  list_step xs (emplace x) = some (xs ++ (x ∷ []), value x)
  list_step xs pop = popped (drop_last xs)
  list_step xs (at i) = answer xs (get_elem? xs i)
  list_step xs wipe = some ([], done)
  list_step xs duplicate = some (xs, done)
  list_step xs count = some (xs, number (length xs))

  pub snoc-cases : (xs : List A) → (xs ≡ []) ⊎ ((ys : List A) × (y : A) × (xs ≡ ys ++ (y ∷ [])))
  snoc-cases [] = inl refl
  snoc-cases (x ∷ xs) = inr (elim (snoc-cases xs) [
    | inl e ↦ ([], x, ap (◌∷◌ x) e)
    | inr s ↦ (x ∷ s.0, s.1, ap (◌∷◌ x) s.2)
  ])

  pub drop_last-snoc : (ys : List A) (y : A) → drop_last (ys ++ (y ∷ [])) ≡ some ys
  drop_last-snoc [] y = refl
  drop_last-snoc (x ∷ []) y = refl
  drop_last-snoc (x ∷ z ∷ ys) y = rw (drop_last-snoc (z ∷ ys) y)
