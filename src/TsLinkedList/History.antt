-- ===== src/TsLinkedList/History.antt =====
-- The calls that have taken effect, against the values of the nodes.
use rock_coro.Prelude.{
  ℕ, zero, suc, ◌+◌, ◌≤◌, ◌≡◌, refl, ◌∙◌, ap, ap₂, some, List, [], ◌∷◌, ◌++◌, arith,
}
use rock_coro.TsLinkedList.{Op, pushed, popped, was_empty}
use rock_coro.TsLinkedList.System.{replay}
use rock_coro.TsLinkedList.Ghost.{vals_after}

-- A history is replayed one part after the other.
pub replay-append :
    (ops : List Op) (more : List Op) (xs : List ℕ) {ys : List ℕ}
    → replay ops xs ≡ some ys
    → replay (ops ++ more) xs ≡ replay more ys
unfolding replay
replay-append [] more xs e = ground arith
replay-append (pushed v ∷ ops) more xs e = replay-append ops more (xs ++ (v ∷ [])) e
replay-append (popped v ∷ ops) more [] e = cc
replay-append (popped v ∷ ops) more (x ∷ xs) {ys} e =
    ground (arith, replay-append ops more xs {ys = ys})
replay-append (was_empty ∷ ops) more [] e = replay-append ops more [] e
replay-append (was_empty ∷ ops) more (x ∷ xs) e = cc

pub vals_after-snoc :
    (vals : ℕ → ℕ) (i n : ℕ)
    → vals_after vals i (suc n) ≡ vals_after vals i n ++ (vals (suc (n + i)) ∷ [])
vals_after-snoc vals i zero = ap (λ k. vals (suc k) ∷ []) (omega arith)
vals_after-snoc vals i (suc n) =
    ap (λ vs. vals (suc i) ∷ vs)
      (vals_after-snoc vals (suc i) n
        ∙ ap (λ k. vals_after vals (suc i) n ++ (vals (suc k) ∷ [])) (omega arith))

pub vals_after-same :
    (vals vals' : ℕ → ℕ) (i n : ℕ)
    → ((k : ℕ) → k ≤ n + i → vals' k ≡ vals k)
    → vals_after vals' i n ≡ vals_after vals i n
vals_after-same vals vals' i zero h = refl
vals_after-same vals vals' i (suc n) h =
    ap₂ ◌∷◌ (h (suc i) (omega arith))
      (vals_after-same vals vals' (suc i) n (λ k le. h k (omega arith)))
