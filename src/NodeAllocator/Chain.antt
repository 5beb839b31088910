-- ===== src/NodeAllocator/Chain.antt =====
-- The nodes of a cache, one after the other, by address.
use rock_coro.Prelude.{
  ℕ, ◌≡◌, ◌≢◌, refl, sym, ◌∙◌, subst, true, false, ◌==◌, arith, Bool-cases, inl, inr, ◌⊎◌, List, [],
  ◌∷◌, length,
}
use rock_coro.TaggedPtr.{get_ptr}
use rock_coro.NodeAllocator.{set, Nodes, Cache, without_head, delete}

-- The address is among these.
abbrev pub Has : ℕ → List ℕ → Type 0
Has a [] = ⊥
Has a (x ∷ xs) = (x ≡ a) ⊎ Has a xs

abbrev pub Chain : (ℕ → ℕ) → ℕ → List ℕ → Type 0
Chain next w [] = get_ptr w ≡ 0
Chain next w (x ∷ xs) = (get_ptr w ≡ x) × (x ≢ 0) × Chain next (next x) xs

abbrev pub Distinct : List ℕ → Type 0
Distinct [] = Unit {0}
Distinct (x ∷ xs) = ¬ Has x xs × Distinct xs

pub set_other : {A : Type 0} → (f : ℕ → A) (a b : ℕ) (v : A) → b ≢ a → set f a v b ≡ f b
set_other f a b v n = let e : (b == a) ≡ false = ground arith in rw e refl

-- A store to a node outside does not change it.
pub set-Chain :
    (next : ℕ → ℕ) (a v w : ℕ) (xs : List ℕ)
    → ¬ Has a xs
    → Chain next w xs
    → Chain (set next a v) w xs
set-Chain next a v w [] out c = c
set-Chain next a v w (x ∷ xs) out (e, n, c) = (
  e,
  n,
  subst (λ u. Chain (set next a v) u xs) (sym (set_other next a x v (λ same. out (inl same))))
      (set-Chain next a v (next x) xs (λ h. out (inr h)) c),
)

-- A cache with these nodes.
pub record Held (n : Nodes) (c : Cache) (xs : List ℕ) : Type 0 where
  pub chain : Chain n.next c.head xs
  pub distinct : Distinct xs
  pub in_memory : (a : ℕ) → Has a xs → n.allocated a ≡ true
  pub counted : c.count ≡ length xs

-- The memory after nodes of a cache went back to it.
pub record Dropped (n n' : Nodes) (xs xs' : List ℕ) : Type 0 where
  pub next_eq : n'.next ≡ n.next
  pub kept : (a : ℕ) → Has a xs' → Has a xs
  pub was_in_memory : (a : ℕ) → n'.allocated a ≡ true → n.allocated a ≡ true
  pub gone : (a : ℕ) → n'.allocated a ≡ true → Has a xs → Has a xs'
  pub stays : (a : ℕ) → ¬ Has a xs → n.allocated a ≡ true → n'.allocated a ≡ true

pub Dropped-refl : (n : Nodes) (xs : List ℕ) → Dropped n n xs xs
Dropped-refl n xs = record {
  next_eq = refl;
  kept = λ a h. h;
  was_in_memory = λ a e. e;
  gone = λ a e h. h;
  stays = λ a h e. e;
}

pub Dropped-trans :
    (n n1 n2 : Nodes) (xs ys zs : List ℕ)
    → Dropped n n1 xs ys
    → Dropped n1 n2 ys zs
    → Dropped n n2 xs zs
Dropped-trans n n1 n2 xs ys zs d e = record {
  next_eq = e.next_eq ∙ d.next_eq;
  kept = λ a h. d.kept a (e.kept a h);
  was_in_memory = λ a p. d.was_in_memory a (e.was_in_memory a p);
  gone = λ a p h. e.gone a p (d.gone a (e.was_in_memory a p) h);
  stays = λ a out p. e.stays a (λ h. out (d.kept a h)) (d.stays a out p);
}

-- One node is taken out.
pub tail-Held :
    (n : Nodes) (c : Cache) (x : ℕ) (xs : List ℕ) → Held n c (x ∷ xs) → Held n (without_head n c) xs
tail-Held n c x xs h =
    let (at_head, not_null, rest) = h.chain in
    let (out, others) = h.distinct in
    record {
      chain = subst (λ a. Chain n.next (n.next a) xs) (sym at_head) rest;
      distinct = others;
      in_memory = λ a i. h.in_memory a (inr i);
      counted = omega (arith, h.counted);
    }

-- And goes back to the memory.
module _ (n : Nodes) (c : Cache) (x : ℕ) (xs : List ℕ) (h : Held n c (x ∷ xs)) where
  apart : (a : ℕ) → Has a xs → a ≢ get_ptr c.head
  apart a i e =
      let (at_head, not_null, rest) = h.chain in
      let (out, others) = h.distinct in out (subst (λ b. Has b xs) (e ∙ at_head) i)

  pub delete-Held : Held (delete c.head n) (without_head n c) xs
  delete-Held =
      let t = tail-Held n c x xs h in
      record {
        chain = t.chain;
        distinct = t.distinct;
        in_memory =
            λ a i. set_other n.allocated (get_ptr c.head) a false (apart a i) ∙ t.in_memory a i;
        counted = t.counted;
      }

  deleted : (a : ℕ) → (delete c.head n).allocated a ≡ true → (a ≢ x) × (n.allocated a ≡ true)
  deleted a e =
      let (at_head, not_null, rest) = h.chain in
      elim (Bool-cases (a == get_ptr c.head)) [
        | inl f ↦ absurd (cc (rw f at e))
        | inr f ↦ (ground (arith, at_head), rw f at e)
      ]

  pub delete-Dropped : Dropped n (delete c.head n) (x ∷ xs) xs
  delete-Dropped =
      let (at_head, not_null, rest) = h.chain in
      record {
        next_eq = refl;
        kept = λ a i. inr i;
        was_in_memory = λ a e. let (other, was) = deleted a e in was;
        gone = λ a e. elim [
          | inl same ↦ (let (other, was) = deleted a e in absurd (other (sym same)))
          | inr i ↦ i
        ];
        stays = λ a out e.
            set_other n.allocated (get_ptr c.head) a false
              (λ same. out (inl (sym (same ∙ at_head))))
            ∙ e;
      }
