-- ===== src/BasicStruct/ChunkedVector/Iterator.antt =====
-- The iterators of `ChunkedVector`: a container and an index of 64 bits, which wraps.
use native.Mathlib.Nat.{mod-eq_of_lt}
use rock_coro.Prelude.{
  ==_refl, ℕ, zero, suc, ◌+◌, ◌-◌, ◌%◌, ◌≤◌, ◌<◌, ◌≡◌, refl, ap, ◌∙◌, Option, none, some, List, [],
  ◌∷◌, arith, ltb, leb, ◌==◌, ◌&&◌, not, if◌then◌else◌, length, get_elem?, drop, Bool, true, false,
  Bool-cases, inl, inr,
}
use rock_coro.Prelude.Ring.{mod-wrap}
use rock_coro.BasicStruct.ChunkedVector.{ChunkedVector, index}
use rock_coro.BasicStruct.ChunkedVector.Refine.{Represents, index-Represents}

abbrev pub word : ℕ
word = 18446744073709551616

-- `container` is the address of the vector.
pub record Iterator : Type 0 where
  pub container : ℕ
  pub index_ : ℕ

pub begin : ℕ → Iterator
begin a = record { container = a; index_ = 0 }

pub end : {A : Type 0} → ℕ → ChunkedVector A → Iterator
end a v = record { container = a; index_ = v.total_size }

-- The prefix and postfix forms move the iterator alike.
pub increment : Iterator → Iterator
increment it = record it { index_ = (it.index_ + 1) % word }

pub decrement : Iterator → Iterator
decrement it = record it { index_ = (it.index_ + (word - 1)) % word }

-- `difference_type` is a word in two's complement, which `size_t` takes as it is.
pub advance : Iterator → ℕ → Iterator
advance it n = record it { index_ = (it.index_ + n) % word }

pub retreat : Iterator → ℕ → Iterator
retreat it n = record it { index_ = (it.index_ + (word - n)) % word }

pub distance : Iterator → Iterator → ℕ
distance it o = (it.index_ + (word - o.index_)) % word

pub equal : Iterator → Iterator → Bool
equal it o = (it.container == o.container) && (it.index_ == o.index_)

pub not_equal : Iterator → Iterator → Bool
unfolding equal
not_equal it o = not (equal it o)

pub less : Iterator → Iterator → Bool
less it o = ltb it.index_ o.index_

pub greater : Iterator → Iterator → Bool
greater it o = ltb o.index_ it.index_

pub less_equal : Iterator → Iterator → Bool
less_equal it o = leb it.index_ o.index_

pub greater_equal : Iterator → Iterator → Bool
greater_equal it o = leb o.index_ it.index_

module _ {A : Type 0} (B : ℕ) where
  -- `*it`, where the iterator's container is `v`.
  pub deref : ChunkedVector A → Iterator → Option A
  unfolding index
  deref v it = index B v it.index_

  pub subscript : ChunkedVector A → Iterator → ℕ → Option A
  unfolding index
  subscript v it n = index B v ((it.index_ + n) % word)

module _ {A : Type 0} where
  abbrev cons : Option A → Option (List A) → Option (List A)
  cons none r = none
  cons (some x) none = none
  cons (some x) (some xs) = some (x ∷ xs)

  -- The elements that a `for` loop from `it` to `stop` reads, on fuel.
  pub visit : ℕ → ℕ → ChunkedVector A → Iterator → Iterator → Option (List A)
  unfolding increment not_equal deref
  visit B zero v it stop = none
  visit B (suc fuel) v it stop =
      let rest = visit B fuel v (increment it) stop in
      if not_equal it stop then cons (deref B v it) rest else some []

module _ {A : Type 0} where
  drop-none : (xs : List A) (i : ℕ) → length xs ≤ i → drop i xs ≡ []
  drop-none [] zero h = refl
  drop-none [] (suc i) h = refl
  drop-none (x ∷ xs) zero h = absurd (omega arith)
  drop-none (x ∷ xs) (suc i) h = drop-none xs i (omega arith)

  drop-some :
      (xs : List A) (i : ℕ)
      → i < length xs
      → (x : A) × (get_elem? xs i ≡ some x) × (drop i xs ≡ x ∷ drop (suc i) xs)
  drop-some [] i h = absurd (omega arith)
  drop-some (x ∷ xs) zero h = (x, refl, refl)
  drop-some (x ∷ xs) (suc i) h = drop-some xs i (omega arith)

wrap_back : (w a n : ℕ) → a < w → n < w → ((a + n) % w + (w - n)) % w ≡ a
wrap_back w a n h k = ground (arith, mod-wrap (a + n) w, mod-wrap ((a + n) % w + (w - n)) w)

wrap_distance : (w a n : ℕ) → a < w → n < w → ((a + n) % w + (w - a)) % w ≡ n
wrap_distance w a n h k = ground (arith, mod-wrap (a + n) w, mod-wrap ((a + n) % w + (w - a)) w)

-- For an iterator with a 64-bit index and a 64-bit word n, += n and then -= n give the iterator
-- back, and the distance after += n is n, also where the index wraps.
pub advance-retreat :
    (it : Iterator) (n : ℕ)
    → it.index_ < word
    → n < word
    → (retreat (advance it n) n ≡ it) × (distance (advance it n) it ≡ n)
unfolding advance retreat distance
advance-retreat it n h k = (
  ap (λ i. record it { index_ = i }) (wrap_back word it.index_ n h k),
  wrap_distance word it.index_ n h k,
)

module _ {A : Type 0} (B a : ℕ) (v : ChunkedVector A) (xs : List A) (p : 0 < B)
    (r : Represents B v xs) (small : v.total_size < word) where
  at_index : ℕ → Iterator
  at_index i = record { container = a; index_ = i }

  not_equal-end : (i : ℕ) → not_equal (at_index i) (end a v) ≡ not (i == v.total_size)
  unfolding not_equal equal end at_index
  not_equal-end i = rw (==_refl a) refl

  visit_from :
      (fuel i : ℕ)
      → i ≤ length xs
      → length xs < fuel + i
      → visit B fuel v (at_index i) (end a v) ≡ some (drop i xs)
  unfolding visit at_index increment deref
  visit_from zero i h k = absurd (omega arith)
  visit_from (suc fuel) i h k = elim (Bool-cases (i == v.total_size)) [
    | inl e ↦
        let stop : not_equal (at_index i) (end a v) ≡ false = not_equal-end i ∙ ap not e in
        rw (stop, drop-none xs i (ground (arith, r.size_eq))) refl
    | inr e ↦
        let go : not_equal (at_index i) (end a v) ≡ true = not_equal-end i ∙ ap not e in
        let (x, here, rest) = drop-some xs i (ground (arith, r.size_eq)) in
        let next : (i + 1) % word ≡ suc i =
          mod-eq_of_lt {n = i + 1} {m = word} (ground (arith, r.size_eq)) ∙ omega arith in
        rw (go, index-Represents B v xs i p r, here, rest)
          (ap (λ l. cons (some x) (visit B fuel v l (end a v))) (ap at_index next)
            ∙ ap (cons (some x))
                (visit_from fuel (suc i) (ground (arith, r.size_eq)) (omega arith)))
  ]

  -- For a chunked vector with blocks of one element or more that represents a list and has fewer
  -- than 2 ^ 64 elements, a loop from begin to end ends and reads the elements of the list in
  -- order.
  pub begin_to_end : visit B (suc (length xs)) v (begin a) (end a v) ≡ some xs
  unfolding begin at_index
  begin_to_end = visit_from (suc (length xs)) 0 (omega arith) (omega arith)
