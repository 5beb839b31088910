-- ===== src/Scheduler/Sums.antt =====
-- A number or a property of each worker, taken over all workers.
use rock_coro.Prelude.{
  AllOf, subst, ℕ, zero, suc, ◌+◌, ◌≡◌, refl, Option, none, some, List, [], ◌∷◌, ◌++◌, get_elem?,
  set, arith, replicate, ◌==◌, if◌then◌else◌,
}
use rock_coro.Scheduler.{Worker, append_opt, remove_at}

abbrev pub sum_over : (Worker → ℕ) → List Worker → ℕ
sum_over f [] = 0
sum_over f (w ∷ ws) = f w + sum_over f ws

-- The share of all workers but one, which a step of that one leaves alone.
pub sum_over-set :
    (f : Worker → ℕ) (ws : List Worker) (i : ℕ) {w : Worker}
    → get_elem? ws i ≡ some w
    → (rest : ℕ) × (sum_over f ws ≡ f w + rest)
      × ((w' : Worker) → sum_over f (set ws i w') ≡ f w' + rest)
sum_over-set f [] i e = absurd (ground arith)
sum_over-set f (v ∷ ws) zero e = (sum_over f ws, ground arith, λ w'. refl)
sum_over-set f (v ∷ ws) (suc i) e =
    let (rest, before, after) = sum_over-set f ws i e in
    (f v + rest, omega (arith, before), λ w'. omega (arith, after w'))

pub AllOf-get :
    (P : Worker → Type 0) (ws : List Worker) (i : ℕ) (w : Worker)
    → AllOf P ws
    → get_elem? ws i ≡ some w
    → P w
AllOf-get P [] i w h e = absurd (ground arith)
AllOf-get P (v ∷ ws) zero w h e = let same : v ≡ w = cc in subst P same h.0
AllOf-get P (v ∷ ws) (suc i) w h e = AllOf-get P ws i w h.1 e

pub AllOf-set :
    (P : Worker → Type 0) (ws : List Worker) (i : ℕ) (w : Worker)
    → AllOf P ws
    → P w
    → AllOf P (set ws i w)
AllOf-set P [] i w h p = tt
AllOf-set P (v ∷ ws) zero w h p = (p, h.1)
AllOf-set P (v ∷ ws) (suc i) w h p = (h.0, AllOf-set P ws i w h.1 p)

pub AllOf-replicate : (P : Worker → Type 0) (n : ℕ) (w : Worker) → P w → AllOf P (replicate n w)
AllOf-replicate P zero w p = tt
AllOf-replicate P (suc n) w p = (p, AllOf-replicate P n w p)

-- How often `c` occurs.
abbrev pub count : ℕ → List ℕ → ℕ
count c [] = 0
count c (d ∷ ds) = (if c == d then 1 else 0) + count c ds

abbrev pub count_opt : ℕ → Option ℕ → ℕ
count_opt c none = 0
count_opt c (some d) = if c == d then 1 else 0

pub count-snoc :
    (c : ℕ) (ds : List ℕ) (d : ℕ) → count c (ds ++ (d ∷ [])) ≡ count c ds + count_opt c (some d)
count-snoc c [] d = omega arith
count-snoc c (x ∷ ds) d = omega (arith, count-snoc c ds d)

pub count-append_opt :
    (c : ℕ) (ds : List ℕ) (o : Option ℕ) → count c (append_opt ds o) ≡ count c ds + count_opt c o
count-append_opt c ds none = omega arith
count-append_opt c ds (some d) = count-snoc c ds d

pub count-remove_at :
    (c : ℕ) (ds : List ℕ) (i : ℕ) {d : ℕ}
    → get_elem? ds i ≡ some d
    → count c ds ≡ count c (remove_at ds i) + count_opt c (some d)
count-remove_at c [] i e = absurd (ground arith)
count-remove_at c (x ∷ ds) zero e = ground arith
count-remove_at c (x ∷ ds) (suc i) e = omega (arith, count-remove_at c ds i e)
