-- ===== src/BasicStruct/Queue/Refine.antt =====
-- The segmented ring behaves as a queue of at most `S * C - 1` items.
use native.Mathlib.Nat.{mod-eq_of_lt}
use rock_coro.Prelude.{
  ℕ, zero, suc, ◌+◌, ◌*◌, ◌/◌, ◌%◌, ◌≤◌, ◌<◌, ◌≡◌, ◌≢◌, refl, ap, sym, ◌∙◌, Option, none, some,
  List, [], ◌∷◌, ◌++◌, arith, leb, ◌==◌, ==_refl, if◌then◌else◌, length, length-append, get_elem?,
  Bool-cases, true, false, inl, inr,
}
use rock_coro.Prelude.Ring.{round_apart, next_index}
use rock_coro.BasicStruct.Memory.{Holds, get_elem?-snoc}
use rock_coro.BasicStruct.Queue.{
  Queue, new, read_segment, made_segment, write_item, write_segment, item_at, push, pop,
}
use rock_coro.BasicStruct.Queue.Indices.{
  same_place, full_test, room_test, next_bottom, empty_test, item_test, first_place, next_top,
  next_in,
}

-- Entry `i` of the list is the item `i` places after `top`, round the ring.
pub record Represents {A : Type 0} (S C : ℕ) (q : Queue A) (xs : List A) : Type 0 where
  pub top_in : q.top < S * C
  pub room : length xs < S * C
  pub bottom_eq : q.bottom ≡ (q.top + length xs) % (S * C)
  pub holds : Holds (item_at S C q) (λ i. (q.top + i) % (S * C)) xs

module _ {A : Type 0} where
  made_keeps :
      (d : A) (s : Option (ℕ → A)) (o : ℕ) (y : A)
      → read_segment s o ≡ some y
      → some (made_segment d s o) ≡ some y
  made_keeps d none o y h = cc
  made_keeps d (some b) o y h = h

  get_elem?-some : (xs : List A) (i : ℕ) → i < length xs → (x : A) × (get_elem? xs i ≡ some x)
  get_elem?-some [] i h = absurd (omega arith)
  get_elem?-some (x ∷ xs) zero h = (x, refl)
  get_elem?-some (x ∷ xs) (suc i) h = get_elem?-some xs i (omega arith)

  module _ (S C : ℕ) (d : A) (q : Queue A) (x : A) where
    abbrev stored : ℕ → Option (ℕ → A)
    stored =
        write_segment q.data_ (q.bottom / S)
          (write_item (made_segment d (q.data_ (q.bottom / S))) (q.bottom % S) x)

    stored_here : read_segment (stored (q.bottom / S)) (q.bottom % S) ≡ some x
    stored_here = rw (==_refl (q.bottom / S), ==_refl (q.bottom % S)) refl

    -- No other item changes.
    stored_else :
        (j : ℕ) (y : A)
        → j ≢ q.bottom
        → read_segment (q.data_ (j / S)) (j % S) ≡ some y
        → read_segment (stored (j / S)) (j % S) ≡ some y
    stored_else j y n h = elim (Bool-cases (j / S == q.bottom / S)) [
      | inl e ↦
          let seg : j / S ≡ q.bottom / S = ground arith in
          let apart : j % S ≢ q.bottom % S = λ o. n (same_place S j q.bottom seg o) in
          let f : (j % S == q.bottom % S) ≡ false = ground arith in
          rw (e, f)
            (made_keeps d (q.data_ (q.bottom / S)) (j % S) y
              (ap (λ k. read_segment (q.data_ k) (j % S)) (sym seg) ∙ h))
      | inr e ↦ rw e h
    ]

  pub new-Represents : (S C : ℕ) → 0 < S * C → Represents {A = A} S C new []
  unfolding new
  new-Represents S C p = record {
    top_in = p;
    room = p;
    bottom_eq = sym (mod-eq_of_lt {n = 0} {m = S * C} p);
    holds = λ i h. absurd (omega arith);
  }

  -- The index after `bottom`, and the test for a full ring.
  pub push_full :
      (S C : ℕ) (d : A) (q : Queue A) (xs : List A) (x : A)
      → Represents S C q xs
      → length xs + 1 ≡ S * C
      → push S C d q x ≡ none
  unfolding push
  push_full S C d q xs x r e =
      let t : (q.top == (if leb (S * C) (q.bottom + 1) then 0 else q.bottom + 1)) ≡ true =
        full_test (S * C) q.top (length xs) q.bottom r.top_in r.room r.bottom_eq e in
      rw t refl

  stored-Holds :
      (S C : ℕ) (d : A) (q : Queue A) (x : A) (xs : List A) (i : ℕ)
      → Represents S C q xs
      → i ≤ length xs
      → read_segment (stored S C d q x ((q.top + i) % (S * C) / S)) ((q.top + i) % (S * C) % S)
        ≡ get_elem? (xs ++ (x ∷ [])) i
  stored-Holds S C d q x xs i r h = elim (Bool-cases (i == length xs)) [
    | inl e ↦
        let same : i ≡ length xs = ground arith in
        let at : (q.top + i) % (S * C) ≡ q.bottom =
          ap (λ k. (q.top + k) % (S * C)) same ∙ sym r.bottom_eq in
        let last : get_elem? (xs ++ (x ∷ [])) i ≡ some x = ground (arith, get_elem?-snoc xs x i) in
        ap (λ j. read_segment (stored S C d q x (j / S)) (j % S)) at
        ∙ stored_here S C d q x
        ∙ sym last
    | inr e ↦
        let lt : i < length xs = ground arith in
        let (y, g) = get_elem?-some xs i lt in
        let apart : (q.top + i) % (S * C) ≢ q.bottom =
          λ b. round_apart (S * C) q.top i (length xs) lt r.room r.top_in (b ∙ r.bottom_eq) in
        let old : get_elem? (xs ++ (x ∷ [])) i ≡ get_elem? xs i =
          ground (arith, get_elem?-snoc xs x i) in
        stored_else S C d q x ((q.top + i) % (S * C)) y apart (r.holds i lt ∙ g) ∙ sym (old ∙ g)
  ]

  pub push-Represents :
      (S C : ℕ) (d : A) (q : Queue A) (xs : List A) (x : A)
      → Represents S C q xs
      → length xs + 1 ≢ S * C
      → (p : Queue A) × (push S C d q x ≡ some p) × Represents S C p (xs ++ (x ∷ []))
  unfolding push
  push-Represents S C d q xs x r e =
      let b_next = if leb (S * C) (q.bottom + 1) then 0 else q.bottom + 1 in
      let t : (q.top == b_next) ≡ false =
        room_test (S * C) q.top (length xs) q.bottom r.top_in r.room r.bottom_eq e in
      (
        record q { data_ = stored S C d q x; bottom = b_next },
        rw t refl,
        record {
          top_in = r.top_in;
          room = omega (arith, r.room, e, length-append xs (x ∷ []));
          bottom_eq =
              next_bottom (S * C) q.top (length xs) q.bottom r.top_in r.room r.bottom_eq
              ∙ ap (λ n. (q.top + n) % (S * C)) (sym (length-append xs (x ∷ [])));
          holds =
              λ i h. stored-Holds S C d q x xs i r (omega (arith, h, length-append xs (x ∷ [])));
        },
      )

  pub pop-empty : (S C : ℕ) (q : Queue A) → Represents S C q [] → pop S C q ≡ some (q, none)
  unfolding pop
  pop-empty S C q r =
      let t : (q.top == q.bottom) ≡ true =
        empty_test (S * C) q.top 0 q.bottom r.top_in r.room r.bottom_eq refl in
      rw t refl

  pub pop-Represents :
      (S C : ℕ) (q : Queue A) (x : A) (xs : List A)
      → Represents S C q (x ∷ xs)
      → (p : Queue A) × (pop S C q ≡ some (p, some x)) × Represents S C p xs
  unfolding pop
  pop-Represents S C q x xs r =
      let t : (q.top == q.bottom) ≡ false =
        item_test (S * C) q.top (length (x ∷ xs)) q.bottom r.top_in r.room r.bottom_eq
          (omega arith) in
      let here : item_at S C q q.top ≡ some x =
        ap (item_at S C q) (sym (first_place (S * C) q.top r.top_in)) ∙ r.holds 0 (omega arith) in
      let next = if (q.top + 1) == (S * C) then 0 else q.top + 1 in
      let round : next ≡ (q.top + 1) % (S * C) = next_top (S * C) q.top r.top_in in
      let after : (i : ℕ) → (next + i) % (S * C) ≡ (q.top + suc i) % (S * C) =
        λ i. ap (λ k. (k + i) % (S * C)) round ∙ next_index (S * C) q.top i in
      (
        record q { top = next },
        rw (t, here) refl,
        record {
          top_in = next_in (S * C) q.top r.top_in;
          room = omega (arith, r.room);
          bottom_eq = r.bottom_eq ∙ sym (after (length xs));
          holds = λ i h. ap (item_at S C q) (after i) ∙ r.holds (suc i) (omega arith);
        },
      )
