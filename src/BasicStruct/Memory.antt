-- ===== src/BasicStruct/Memory.antt =====
-- The storage behind the containers: cells that hold an object or are raw memory.
use rock_coro.Prelude.{
  ℕ, zero, suc, ◌+◌, ◌<◌, ◌≡◌, ◌≢◌, refl, ◌&&◌, Option, none, some, List, [], ◌∷◌, ◌++◌, arith, ltb,
  leb, ◌==◌, if◌then◌else◌, length, length-append, get_elem?,
}

-- `none` is a cell with no object in it.
abbrev pub Memory : Type 0 → Type 0
Memory A = ℕ → Option A

abbrev pub blank : (A : Type 0) → Memory A
blank A i = none

module _ {A : Type 0} where
  abbrev pub write : Memory A → ℕ → Option A → Memory A
  write m i v j = if j == i then v else m j

  -- `for (; i < i + n; ++i) new (to + i) T(from(i))`
  unfoldable pub copy_from : ℕ → ℕ → (ℕ → Option A) → Memory A → Memory A
  copy_from zero i from to = to
  copy_from (suc n) i from to = copy_from n (i + 1) from (write to i (from i))

  -- The loop writes just the cells that it runs over.
  pub copy_from_lem :
      (n i j : ℕ) (from : ℕ → Option A) (to : Memory A)
      → copy_from n i from to j ≡ (if leb i j && ltb j (i + n) then from j else to j)
  unfolding copy_from
  copy_from_lem zero i j from to = ground arith
  copy_from_lem (suc n) i j from to =
      ground (arith, copy_from_lem n (i + 1) j from (write to i (from i)))

  -- The cell at `at i` holds entry `i` of the list.
  abbrev pub Holds : Memory A → (ℕ → ℕ) → List A → Type 0
  Holds m at xs = (i : ℕ) → i < length xs → m (at i) ≡ get_elem? xs i

  pub get_elem?-snoc :
      (xs : List A) (x : A) (i : ℕ)
      → get_elem? (xs ++ (x ∷ [])) i ≡ (if i == length xs then some x else get_elem? xs i)
  get_elem?-snoc [] x zero = refl
  get_elem?-snoc [] x (suc i) = ground arith
  get_elem?-snoc (y ∷ xs) x zero = ground arith
  get_elem?-snoc (y ∷ xs) x (suc i) = ground (arith, get_elem?-snoc xs x i)

  pub Holds-snoc :
      (m : Memory A) (at : ℕ → ℕ) (xs : List A) (x : A) (j : ℕ)
      → Holds m at xs
      → at (length xs) ≡ j
      → ((i : ℕ) → i < length xs → at i ≢ j)
      → Holds (write m j (some x)) at (xs ++ (x ∷ []))
  Holds-snoc m at xs x j h e apart i p =
      ground (arith, get_elem?-snoc xs x i, length-append xs (x ∷ []), h i, apart i, e)
