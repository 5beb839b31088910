-- ===== src/Timer/Nodes/Refine.antt =====
-- The lists of nodes that share one pointer each, against plain lists.
use rock_coro.Prelude.{
  ℕ, ◌≡◌, ◌≢◌, refl, sym, ◌∙◌, ap, ap₂, subst, ◌⊎◌, inl, inr, List, [], ◌∷◌, ◌++◌, arith, In,
  In-snoc, ◌==◌, ==_iff, Bool-cases, if_true, if_false,
}
use mathlib.Core.Path.{}
use rock_coro.BasicStruct.LinkedList.{Heap}
use rock_coro.BasicStruct.LinkedList.Refine.{Represents, push_back-Represents}
use rock_coro.Timer.Nodes.{
  pop_front, push_back, Lists, set_list, Call, push, pop, call, call_all, new,
}
use rock_coro.Timer.Nodes.Memory.{
  on, push_back_lem, push_back-keeps, pop_front_lem, pop_front-empty,
}

abbrev pub take_first : List ℕ → ℕ → (ℕ → List ℕ) → (ℕ → List ℕ) × ℕ
take_first [] j ls = (ls, 0)
take_first (x ∷ xs) j ls = (set_list ls j xs, x)

-- Plain lists under the same calls.
abbrev pub spec : Call → (ℕ → List ℕ) → (ℕ → List ℕ) × ℕ
spec (push j node) ls = (set_list ls j (ls j ++ (node ∷ [])), node)
spec (pop j) ls = take_first (ls j) j ls

abbrev pub spec_all : List Call → (ℕ → List ℕ) → List ℕ
spec_all [] ls = []
spec_all (c ∷ cs) ls = (spec c ls).1 ∷ spec_all cs (spec c ls).0

-- A node that is pushed is not null, and is in no list.
abbrev pub IsAllowed : Call → (ℕ → List ℕ) → Type 0
IsAllowed (push j node) ls = (node ≢ 0) × ((i : ℕ) → ¬ In node (ls i))
IsAllowed (pop j) ls = Unit {0}

abbrev pub AllAllowed : List Call → (ℕ → List ℕ) → Type 0
AllAllowed [] ls = Unit {0}
AllAllowed (c ∷ cs) ls = IsAllowed c ls × AllAllowed cs (spec c ls).0

record Rep (s : Lists) (ls : ℕ → List ℕ) : Type 0 where
  each : (j : ℕ) → Represents (on s.next (s.lists j)) (ls j)
  apart : (i j x : ℕ) → In x (ls i) → In x (ls j) → i ≡ j

module _ {A B : Type 0} (P : ℕ → A → B → Type 0) where
  -- One list is replaced, and the others stay.
  set_list-both :
      (f : ℕ → A) (g : ℕ → B) (j : ℕ) (a : A) (b : B)
      → P j a b
      → ((i : ℕ) → i ≢ j → P i (f i) (g i))
      → (i : ℕ) → P i (set_list f j a i) (set_list g j b i)
  set_list-both f g j a b here rest i = elim (Bool-cases (i == j)) [
    | inl e ↦ rw e (subst (λ k. P k a b) (sym ((==_iff i j).0 e)) here)
    | inr e ↦ let n : i ≢ j = ground arith in rw e (rest i n)
  ]

-- Where a node of the new lists comes from.
origin :
    (ls : ℕ → List ℕ) (j node i x : ℕ)
    → In x (set_list ls j (ls j ++ (node ∷ [])) i)
    → In x (ls i) ⊎ ((x ≡ node) × (i ≡ j))
origin ls j node i x h = elim (Bool-cases (i == j)) [
  | inl e ↦
      let same : i ≡ j = (==_iff i j).0 e in
      elim ((In-snoc x node (ls j)).0 (subst (In x) (if_true _ _ _ e) h)) [
        | inl old ↦ inl (subst (λ k. In x (ls k)) (sym same) old)
        | inr new_one ↦ inr (new_one, same)
      ]
  | inr e ↦ inl (subst (In x) (if_false _ _ _ e) h)
]

push-Rep :
    (s : Lists) (ls : ℕ → List ℕ) (j node : ℕ)
    → node ≢ 0
    → ((i : ℕ) → ¬ In node (ls i))
    → Rep s ls
    → Rep (call (push j node) s).0 (spec (push j node) ls).0
unfolding call
push-Rep s ls j node nz out r =
    let next' = (push_back s.next (s.lists j) node).0 in
    record {
      each =
          set_list-both (λ i l xs. Represents (on next' l) xs) s.lists ls j
            (push_back s.next (s.lists j) node).1 (ls j ++ (node ∷ []))
            (subst (λ l. Represents l (ls j ++ (node ∷ [])))
              (sym (push_back_lem s.next (s.lists j) (ls j) node (out j) (r.each j)))
              (push_back-Represents (on s.next (s.lists j)) (ls j) node nz (out j) (r.each j)))
            (λ i ne.
              push_back-keeps s.next (s.lists j) (ls j) node (s.lists i) (ls i) (out j) (out i)
                (λ x a b. ne (r.apart i j x b a)) (r.each j) (r.each i));
      apart = λ i k x a b. elim (origin ls j node i x a) [
        | inl old ↦ elim (origin ls j node k x b) [
          | inl old' ↦ r.apart i k x old old'
          | inr (e, at) ↦ absurd (out i (subst (λ y. In y (ls i)) e old))
        ]
        | inr (e, at) ↦ elim (origin ls j node k x b) [
          | inl old' ↦ absurd (out k (subst (λ y. In y (ls k)) e old'))
          | inr (e', at') ↦ at ∙ sym at'
        ]
      ];
    }

-- What is left after a pop was there before.
remains :
    (ls : ℕ → List ℕ) (j y : ℕ) (ys : List ℕ) (i x : ℕ)
    → ls j ≡ y ∷ ys
    → In x (set_list ls j ys i)
    → In x (ls i)
remains ls j y ys i x e h = elim (Bool-cases (i == j)) [
  | inl t ↦
      let same : i ≡ j = (==_iff i j).0 t in
      let there : In x (y ∷ ys) = inr (subst (In x) (if_true _ _ _ t) h) in
      subst (In x) (sym (ap ls same ∙ e)) there
  | inr t ↦ subst (In x) (if_false _ _ _ t) h
]

pop-Rep :
    (s : Lists) (ls : ℕ → List ℕ) (j : ℕ) (xs : List ℕ)
    → ls j ≡ xs
    → Rep s ls
    → Rep (call (pop j) s).0 (spec (pop j) ls).0 × ((call (pop j) s).1 ≡ (spec (pop j) ls).1)
unfolding call
pop-Rep s ls j [] e r =
    let none_left = pop_front-empty s.next (s.lists j) (subst (Represents _) e (r.each j)) in
    rw (e, none_left)
      (
        record {
          each = λ i. elim (Bool-cases (i == j)) [
            | inl t ↦
                subst (λ l. Represents (on s.next l) (ls i))
                  (ap s.lists ((==_iff i j).0 t) ∙ sym (if_true _ _ _ t)) (r.each i)
            | inr t ↦
                subst (λ l. Represents (on s.next l) (ls i)) (sym (if_false _ _ _ t)) (r.each i)
          ];
          apart = r.apart;
        },
        refl,
      )
pop-Rep s ls j (y ∷ ys) e r =
    let (rest, first) = pop_front_lem s.next (s.lists j) y ys (subst (Represents _) e (r.each j)) in
    rw e (
      record {
        each =
            set_list-both (λ i l xs. Represents (on s.next l) xs) s.lists ls j
              (pop_front s.next (s.lists j)).0 ys rest (λ i ne. r.each i);
        apart = λ i k x a b. r.apart i k x (remains ls j y ys i x e a) (remains ls j y ys k x e b);
      },
      first,
    )

call_all-eq :
    (cs : List Call) (s : Lists) (ls : ℕ → List ℕ)
    → AllAllowed cs ls
    → Rep s ls
    → call_all cs s ≡ spec_all cs ls
unfolding call_all
call_all-eq [] s ls h r = refl
call_all-eq (push j node ∷ cs) s ls h r = ap₂ ◌∷◌ (same_reply s j node) (
    call_all-eq cs (call (push j node) s).0 (spec (push j node) ls).0 h.1
      (push-Rep s ls j node h.0.0 h.0.1 r))
  where
    same_reply : (s : Lists) (j node : ℕ) → (call (push j node) s).1 ≡ node
    same_reply s j node = unfold call in refl
call_all-eq (pop j ∷ cs) s ls h r =
    let (kept, reply) = pop-Rep s ls j (ls j) refl r in
    ap₂ ◌∷◌ reply (call_all-eq cs (call (pop j) s).0 (spec (pop j) ls).0 h.1 kept)

-- For any calls of push_back and pop_front on any of the lists, where a node that is pushed is not
-- null and is in none of the lists at that time: new lists, which all use the one next pointer of each
-- node and whose pop_front leaves it as it is, give the same nodes as plain lists that are empty at
-- first, and null where such a list is empty.
pub nodes_refine_lists :
    (cs : List Call) (next : Heap)
    → AllAllowed cs (λ j. [])
    → call_all cs (new next) ≡ spec_all cs (λ j. [])
nodes_refine_lists cs next h = call_all-eq cs (new next) (λ j. []) h (start next)
  where
    start : (next : Heap) → Rep (new next) (λ j. [])
    start next =
        unfold new in
        record {
          each = λ j. record { chain = refl; tail_eq = refl; distinct = tt };
          apart = λ i j x a b. absurd a;
        }
