-- ===== src/BasicStruct/Vector/Refine.antt =====
-- A vector behaves as the list of its elements, and stays inside its buffer.
use rock_coro.Prelude.{
  ℕ, zero, suc, ◌+◌, ◌-◌, ◌≤◌, ◌<◌, ◌≡◌, refl, sym, ◌∙◌, Option, none, some, List, [], ◌∷◌, ◌++◌,
  arith, true, ltb, leb, if◌then◌else◌, length, length-append, get_elem?, replicate,
  length-replicate, Bool-cases, inl, inr, get_elem?-none,
}
use rock_coro.BasicStruct.Memory.{
  Holds, Holds-snoc, copy_from, copy_from_lem, write, blank, get_elem?-snoc,
}
use rock_coro.BasicStruct.Buffer.{
  Outcome, returns, aborted, Filled, copy_objects-returns, destroy_from-returns,
}
use rock_coro.BasicStruct.Vector.{
  Vector, grown_capacity, new, new_sized, destroy_all, copy, index, grow, ensure_capacity,
  push_back, emplace_back, pop_back, clear,
}

-- The vector's cells below `size` hold the list, the cells above it hold nothing, and the buffer is
-- large enough.
pub record Represents {A : Type 0} (v : Vector A) (xs : List A) : Type 0 where
  pub size_eq : v.size ≡ length xs
  pub room : v.size ≤ v.capacity
  pub holds : Holds v.cells (λ i. i) xs
  pub raw : (i : ℕ) → v.size ≤ i → v.cells i ≡ none

module _ {A : Type 0} where
  pub new-Represents : (capacity : ℕ) → Represents {A = A} (new capacity) []
  unfolding new
  new-Represents capacity = record {
    size_eq = refl;
    room = omega arith;
    holds = λ i p. absurd (omega arith);
    raw = λ i p. refl;
  }

  -- The call returns a vector that holds the list.
  abbrev pub Gives : Outcome (Vector A) → List A → Type 0
  Gives o xs = (w : Vector A) × (o ≡ returns w) × Represents w xs

  get_elem?-some : (xs : List A) (i : ℕ) → i < length xs → (x : A) × (get_elem? xs i ≡ some x)
  get_elem?-some [] i p = absurd (omega arith)
  get_elem?-some (x ∷ xs) zero p = (x, refl)
  get_elem?-some (x ∷ xs) (suc i) p = get_elem?-some xs i (omega arith)

  filled : (v : Vector A) (xs : List A) (n : ℕ) → n ≤ v.size → Represents v xs → Filled v.cells 0 n
  filled v xs n p r k a b =
      let inside : k < length xs = omega (arith, r.size_eq) in
      let (x, e) = get_elem?-some xs k inside in (x, r.holds k inside ∙ e)

  destroyed :
      (v : Vector A) (xs : List A)
      → Represents v xs
      → destroy_all v ≡ returns (copy_from v.size 0 (λ _. none) v.cells)
  unfolding destroy_all
  destroyed v xs r =
      destroy_from-returns v.size 0 v.capacity v.cells (omega (arith, r.room))
        (filled v xs (0 + v.size) (omega arith) r)

  -- The elements in a new buffer that has room for them.
  moved-Represents :
      (v : Vector A) (xs : List A) (room : ℕ)
      → v.size ≤ room
      → Represents v xs
      → Represents
          (record { cells = copy_from v.size 0 v.cells (blank A); size = v.size; capacity = room })
          xs
  moved-Represents v xs room p r = record {
    size_eq = r.size_eq;
    room = p;
    holds = λ i p. ground (arith, copy_from_lem v.size 0 i v.cells (blank A), r.holds i, r.size_eq);
    raw = λ i p. ground (arith, copy_from_lem v.size 0 i v.cells (blank A));
  }

  pub copy-Represents : (v : Vector A) (xs : List A) → Represents v xs → Gives (copy v) xs
  unfolding copy
  copy-Represents v xs r =
      let loop =
        copy_objects-returns v.size 0 v.capacity v.cells v.capacity (blank A)
          (omega (arith, r.room)) (omega (arith, r.room))
          (filled v xs (0 + v.size) (omega arith) r) in
      (
        record {
          cells = copy_from v.size 0 v.cells (blank A);
          size = v.size;
          capacity = v.capacity;
        },
        rw loop refl,
        moved-Represents v xs v.capacity r.room r,
      )

  grow-Represents :
      (room : ℕ) (v : Vector A) (xs : List A)
      → v.size ≤ room
      → Represents v xs
      → (w : Vector A) × (grow room v ≡ returns w)
        × Represents w xs
        × (w.capacity ≡ room)
        × (w.size ≡ v.size)
  unfolding grow
  grow-Represents room v xs p r =
      let loop =
        copy_objects-returns v.size 0 v.capacity v.cells room (blank A) (omega (arith, r.room))
          (omega (arith, p)) (filled v xs (0 + v.size) (omega arith) r) in
      (
        record { cells = copy_from v.size 0 v.cells (blank A); size = v.size; capacity = room },
        rw (loop, destroyed v xs r) refl,
        moved-Represents v xs room p r,
        refl,
        refl,
      )

  ensure_capacity-Represents :
      (m : ℕ) (v : Vector A) (xs : List A)
      → Represents v xs
      → (w : Vector A) × (ensure_capacity m v ≡ returns w)
        × Represents w xs
        × (m ≤ w.capacity)
        × (w.size ≡ v.size)
  unfolding ensure_capacity
  ensure_capacity-Represents m v xs r = elim (Bool-cases (leb m v.capacity)) [
    | inl e ↦ (v, rw e refl, r, ground arith, refl)
    | inr e ↦
        let room = grown_capacity v.capacity m in
        let (w, made, rep, cap, size) = grow-Represents room v xs (ground (arith, r.room)) r in
        (w, rw e made, rep, ground (arith, cap), size)
  ]

  pub emplace_back-Represents :
      (v : Vector A) (xs : List A) (x : A)
      → Represents v xs
      → (w : Vector A) × (push_back v x ≡ returns w)
        × (emplace_back v x ≡ returns (w, x))
        × Represents w (xs ++ (x ∷ []))
  unfolding push_back emplace_back
  emplace_back-Represents v xs x r =
      let (w, made, rep, room, size) = ensure_capacity-Represents (v.size + 1) v xs r in
      let fits : ltb w.size w.capacity ≡ true = ground (arith, room, size) in
      (
        record w { cells = write w.cells w.size (some x); size = w.size + 1 },
        rw (made, fits) refl,
        rw (made, fits) (ground arith),
        record {
          size_eq = omega (arith, rep.size_eq, length-append xs (x ∷ []));
          room = omega (arith, room, size);
          holds =
              Holds-snoc w.cells (λ i. i) xs x w.size rep.holds (sym rep.size_eq)
                (λ i p. omega (arith, rep.size_eq));
          raw = λ i p. ground (arith, rep.raw i);
        },
      )

  -- What the list says of index `i`.
  abbrev pub at_index : Option A → Outcome A
  at_index none = aborted
  at_index (some x) = returns x

  pub index-Represents :
      (v : Vector A) (xs : List A) (i : ℕ) → Represents v xs → index v i ≡ at_index (get_elem? xs i)
  unfolding index
  index-Represents v xs i r = elim (Bool-cases (ltb i v.size)) [
    | inl e ↦
        let inside : i < length xs = ground (arith, r.size_eq, e) in
        let (x, at) = get_elem?-some xs i inside in
        let fits : ltb i v.capacity ≡ true = ground (arith, r.room, r.size_eq) in
        rw (e, fits, r.holds i inside, at) refl
    | inr e ↦ rw (e, get_elem?-none xs i (ground (arith, r.size_eq, e))) refl
  ]

  pub pop_back-Represents :
      (v : Vector A) (xs : List A) (x : A) → Represents v (xs ++ (x ∷ [])) → Gives (pop_back v) xs
  unfolding pop_back
  pop_back-Represents v xs x r =
      let size : v.size ≡ length xs + 1 = omega (arith, r.size_eq, length-append xs (x ∷ [])) in
      let (y, e) =
        filled v (xs ++ (x ∷ [])) v.size (omega arith) r (v.size - 1) (omega arith)
          (omega (arith, size)) in
      (
        record v { cells = write v.cells (v.size - 1) none; size = v.size - 1 },
        ground (arith, size, e, r.room),
        record {
          size_eq = omega (arith, size);
          room = omega (arith, r.room);
          holds = λ i p.
              ground (arith, size, length-append xs (x ∷ []), r.holds i, get_elem?-snoc xs x i);
          raw = λ i p. ground (arith, size, r.raw i);
        },
      )

  pub clear-Represents : (v : Vector A) (xs : List A) → Represents v xs → Gives (clear v) []
  unfolding clear
  clear-Represents v xs r = (
    record v { cells = copy_from v.size 0 (λ _. none) v.cells; size = 0 },
    rw (destroyed v xs r) refl,
    record {
      size_eq = refl;
      room = omega arith;
      holds = λ i p. absurd (omega arith);
      raw = λ i p. ground (arith, copy_from_lem v.size 0 i (λ _. none) v.cells, r.raw i);
    },
  )

  get_elem?-replicate :
      (n i : ℕ) (x : A) → get_elem? (replicate n x) i ≡ (if ltb i n then some x else none)
  get_elem?-replicate zero i x = ground arith
  get_elem?-replicate (suc n) zero x = ground arith
  get_elem?-replicate (suc n) (suc i) x = ground (arith, get_elem?-replicate n i x)

  pub new_sized-Represents : (n : ℕ) (x : A) → Gives (new_sized n x) (replicate n x)
  unfolding new_sized
  new_sized-Represents n x = (
    record { cells = copy_from n 0 (λ _. some x) (blank A); size = n; capacity = n },
    rw
        (copy_objects-returns n 0 n (λ _. some x) n (blank A) (omega arith) (omega arith)
          (λ k a b. (x, refl)))
        refl,
    record {
      size_eq = sym (length-replicate n x);
      room = omega arith;
      holds = λ i p. ground (
        arith,
        copy_from_lem n 0 i (λ _. some x) (blank A),
        get_elem?-replicate n i x,
        length-replicate n x,
      );
      raw = λ i p. ground (arith, copy_from_lem n 0 i (λ _. some x) (blank A));
    },
  )

  pub pop_back-empty : (v : Vector A) → Represents v [] → pop_back v ≡ aborted
  unfolding pop_back
  pop_back-empty v r = ground (arith, r.size_eq)
