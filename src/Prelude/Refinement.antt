-- ===== src/Prelude/Refinement.antt =====
-- Runs of an object against runs of its specification: one step at a time gives all runs.
use mathlib.Core.Path.{◌≡◌, refl, ap, ap₂}
use mathlib.Core.Option.{Option, none, some}
use mathlib.Core.List.{List, [], ◌∷◌}

module _ {S Op Reply : Type 0} where
  -- The replies to a list of calls; `none` is a failed assertion, which ends the run.
  unfoldable pub run : (S → Op → Option (S × Reply)) → S → List Op → List (Option Reply)
  run step s [] = []
  run step s (op ∷ ops) = elim (step s op) [
    | none ↦ none ∷ []
    | some (s', r) ↦ some r ∷ run step s' ops
  ]

module _ {S X Reply : Type 0} where
  -- Two steps with the same reply, to states that represent one another.
  abbrev pub Matches : (S → X → Type 0) → Option (S × Reply) → Option (X × Reply) → Type 0
  Matches Rep none none = Unit {0}
  Matches Rep (some (s, r)) (some (x, q)) = Rep s x × (r ≡ q)
  Matches Rep _ _ = ⊥

module _ {S X Op Reply : Type 0} where
  module _ (Rep : S → X → Type 0) (step : S → Op → Option (S × Reply))
      (spec : X → Op → Option (X × Reply))
      (sim : (s : S) (x : X) (op : Op) → Rep s x → Matches Rep (step s op) (spec x op)) where
    pub run-eq : (ops : List Op) (s : S) (x : X) → Rep s x → run step s ops ≡ run spec x ops
    unfolding run
    run-eq [] s x h = refl
    run-eq (op ∷ ops) s x h = go (step s op) (spec x op) (sim s x op h) (run-eq ops)
      where
        go :
            (a : Option (S × Reply)) (b : Option (X × Reply))
            → Matches Rep a b
            → ((s : S) (x : X) → Rep s x → run step s ops ≡ run spec x ops)
            → ◌≡◌ {A = List (Option Reply)}
                (elim a [ none ↦ none ∷ [] | some (s', r) ↦ some r ∷ run step s' ops ])
                (elim b [ none ↦ none ∷ [] | some (x', r) ↦ some r ∷ run spec x' ops ])
        go none none m ih = refl
        go (some (s', r)) (some (x', q)) m ih = ap₂ ◌∷◌ (ap some m.1) (ih s' x' m.0)
        go none (some y) m ih = absurd m
        go (some y) none m ih = absurd m
