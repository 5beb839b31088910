-- ===== src/BasicStruct/LinkedList/Refine.antt =====
-- The nodes that a linked list reaches, in order, under its operations.
use rock_coro.Prelude.{
  ℕ, ◌≡◌, ◌≢◌, refl, ap, sym, ◌∙◌, subst, inl, inr, ◌==◌, if◌then◌else◌, true, false, List, [], ◌∷◌,
  ◌++◌, arith, In, In-snoc,
}
use rock_coro.BasicStruct.LinkedList.{
  Heap, set_next, LinkedList, new, pop_front, push_back, push_front,
}

-- From the pointer `h`, `next` leads through just the nodes of the list.
abbrev pub Chain : Heap → ℕ → List ℕ → Type 0
Chain next h [] = h ≡ 0
Chain next h (x ∷ xs) = (h ≡ x) × (x ≢ 0) × Chain next (next x) xs

abbrev pub Distinct : List ℕ → Type 0
Distinct [] = Unit {0}
Distinct (x ∷ xs) = (¬ In x xs) × Distinct xs

-- The last node, and null with none.
abbrev pub last_of : List ℕ → ℕ
last_of [] = 0
last_of (x ∷ []) = x
last_of (x ∷ y ∷ xs) = last_of (y ∷ xs)

pub record Represents (l : LinkedList) (xs : List ℕ) : Type 0 where
  pub chain : Chain l.next l.head xs
  pub tail_eq : l.tail ≡ last_of xs
  pub distinct : Distinct xs

pub set_next_here : (next : Heap) (p v : ℕ) → set_next next p v p ≡ v
set_next_here next p v = ground arith

pub set_next_else : (next : Heap) (p v q : ℕ) → q ≢ p → set_next next p v q ≡ next q
set_next_else next p v q n = ground arith

-- A write to a node that is not in the chain leaves it.
pub Chain-set_next :
    (next : Heap) (p v h : ℕ) (xs : List ℕ)
    → ¬ In p xs
    → Chain next h xs
    → Chain (set_next next p v) h xs
Chain-set_next next p v h [] n c = c
Chain-set_next next p v h (x ∷ xs) n c = (
  c.0,
  c.1,
  subst (λ k. Chain (set_next next p v) k xs)
      (sym (set_next_else next p v x (λ e. n (inl (sym e)))))
      (Chain-set_next next p v (next x) xs (λ m. n (inr m)) c.2),
)

pub last_of-In : (x : ℕ) (xs : List ℕ) → In (last_of (x ∷ xs)) (x ∷ xs)
last_of-In x [] = inl refl
last_of-In x (y ∷ ys) = inr (last_of-In y ys)

Chain-snoc :
    (next : Heap) (h x : ℕ) (xs : List ℕ) (node : ℕ)
    → node ≢ 0
    → next node ≡ 0
    → ¬ In node (x ∷ xs)
    → Distinct (x ∷ xs)
    → Chain next h (x ∷ xs)
    → Chain (set_next next (last_of (x ∷ xs)) node) h ((x ∷ xs) ++ (node ∷ []))
Chain-snoc next h x [] node z e n d c =
    (c.0, c.1, (set_next_here next x node, z, set_next_else next x node node (λ q. n (inl q)) ∙ e))
Chain-snoc next h x (y ∷ ys) node z e n d c = (
  c.0,
  c.1,
  subst (λ k. Chain (set_next next (last_of (y ∷ ys)) node) k ((y ∷ ys) ++ (node ∷ [])))
      (sym (
        set_next_else next (last_of (y ∷ ys)) node x
          (λ q. d.0 (subst (λ k. In k (y ∷ ys)) (sym q) (last_of-In y ys)))))
      (Chain-snoc next (next x) y ys node z e (λ m. n (inr m)) d.1 c.2),
)

last_of-snoc : (xs : List ℕ) (node : ℕ) → last_of (xs ++ (node ∷ [])) ≡ node
last_of-snoc [] node = refl
last_of-snoc (x ∷ []) node = refl
last_of-snoc (x ∷ y ∷ ys) node = last_of-snoc (y ∷ ys) node

Distinct-snoc : (xs : List ℕ) (node : ℕ) → ¬ In node xs → Distinct xs → Distinct (xs ++ (node ∷ []))
Distinct-snoc [] node n d = (λ m. m, tt)
Distinct-snoc (x ∷ xs) node n d = (
  λ m. elim ((In-snoc x node xs).0 m) [ inl i ↦ d.0 i | inr e ↦ n (inl (sym e)) ],
  Distinct-snoc xs node (λ m. n (inr m)) d.1,
)

pub last_of_nonzero :
    (next : Heap) (h x : ℕ) (xs : List ℕ) → Chain next h (x ∷ xs) → last_of (x ∷ xs) ≢ 0
last_of_nonzero next h x [] c = c.1
last_of_nonzero next h x (y ∷ ys) c = last_of_nonzero next (next x) y ys c.2

pub push_back-Represents :
    (l : LinkedList) (xs : List ℕ) (node : ℕ)
    → node ≢ 0
    → ¬ In node xs
    → Represents l xs
    → Represents (push_back l node) (xs ++ (node ∷ []))
unfolding push_back
push_back-Represents l [] node z n r =
    let t : (l.tail == 0) ≡ true = ground (arith, r.tail_eq) in
    rw t record {
      chain = (refl, z, set_next_here l.next node 0);
      tail_eq = refl;
      distinct = (λ m. m, tt);
    }
push_back-Represents l (x ∷ xs) node z n r =
    let some_tail = last_of_nonzero l.next l.head x xs r.chain in
    let t : (l.tail == 0) ≡ false = ground (arith, r.tail_eq) in
    rw t record {
      chain =
          subst
            (λ k. Chain (set_next (set_next l.next node 0) k node) l.head ((x ∷ xs) ++ (node ∷ [])))
            (sym r.tail_eq)
            (Chain-snoc (set_next l.next node 0) l.head x xs node z (set_next_here l.next node 0) n
              r.distinct (Chain-set_next l.next node 0 l.head (x ∷ xs) n r.chain));
      tail_eq = sym (last_of-snoc (x ∷ xs) node);
      distinct = Distinct-snoc (x ∷ xs) node n r.distinct;
    }

front_tail :
    (l : LinkedList) (xs : List ℕ) (node : ℕ)
    → Represents l xs
    → (if l.tail == 0 then node else l.tail) ≡ last_of (node ∷ xs)
front_tail l [] node r = ground (arith, r.tail_eq)
front_tail l (x ∷ xs) node r =
    let some_tail = last_of_nonzero l.next l.head x xs r.chain in ground (arith, r.tail_eq)

pub push_front-Represents :
    (l : LinkedList) (xs : List ℕ) (node : ℕ)
    → node ≢ 0
    → ¬ In node xs
    → Represents l xs
    → Represents (push_front l node) (node ∷ xs)
unfolding push_front
push_front-Represents l xs node z n r = record {
  chain = (
    refl,
    z,
    subst (λ k. Chain (set_next l.next node l.head) k xs) (sym (set_next_here l.next node l.head))
        (Chain-set_next l.next node l.head l.head xs n r.chain),
  );
  tail_eq = front_tail l xs node r;
  distinct = (n, r.distinct);
}

-- The first node is given out with a null `next`, and the others stay; an empty list gives null.
abbrev pub Popped : LinkedList → List ℕ → Type 0
Popped l [] = pop_front l ≡ (l, 0)
Popped l (x ∷ xs) =
    ((pop_front l).1 ≡ x) × Represents (pop_front l).0 xs × ((pop_front l).0.next x ≡ 0)

pub rest_tail :
    (l : LinkedList) (x : ℕ) (xs : List ℕ)
    → Represents l (x ∷ xs)
    → (if l.next l.head == 0 then 0 else l.tail) ≡ last_of xs
rest_tail l x [] r = let null : l.next l.head ≡ 0 = ap l.next r.chain.0 ∙ r.chain.2 in ground arith
rest_tail l x (y ∷ ys) r =
    let next_node : l.next l.head ≡ y = ap l.next r.chain.0 ∙ r.chain.2.0 in
    let nonzero : y ≢ 0 = r.chain.2.1 in ground (arith, r.tail_eq)

pop_front-Popped : (l : LinkedList) (xs : List ℕ) → Represents l xs → Popped l xs
unfolding pop_front
pop_front-Popped l [] r = let t : (l.head == 0) ≡ true = ground (arith, r.chain) in rw t refl
pop_front-Popped l (x ∷ xs) r =
    let t : (l.head == 0) ≡ false = ground (arith, r.chain.0, r.chain.1) in
    rw t (
      r.chain.0,
      record {
        chain =
            Chain-set_next l.next l.head 0 (l.next l.head) xs
              (λ m. r.distinct.0 (subst (λ k. In k xs) r.chain.0 m))
              (subst (λ k. Chain l.next (l.next k) xs) (sym r.chain.0) r.chain.2);
        tail_eq = rest_tail l x xs r;
        distinct = r.distinct.1;
      },
      ap (λ k. set_next l.next k 0 x) r.chain.0 ∙ set_next_here l.next x 0,
    )

-- For a linked list on a heap that reaches distinct nodes in some order, with its tail at the last
-- one, and for a node that is neither null nor among them: push_back and push_front give lists
-- that reach that node last or first and the others as before; pop_front gives the first node,
-- with a null next, and leaves a list that reaches the rest, or gives null and changes nothing if
-- there is none. The tail is at the last node, or null, after each.
pub operations_keep_list :
    (l : LinkedList) (xs : List ℕ) (node : ℕ)
    → node ≢ 0
    → ¬ In node xs
    → Represents l xs
    → Represents (push_back l node) (xs ++ (node ∷ []))
      × Represents (push_front l node) (node ∷ xs)
      × Popped l xs
operations_keep_list l xs node z n r = (
  push_back-Represents l xs node z n r,
  push_front-Represents l xs node z n r,
  pop_front-Popped l xs r,
)

pub new-Represents : (h : Heap) → Represents (new h) []
unfolding new
new-Represents h = record { chain = refl; tail_eq = refl; distinct = tt }
