-- ===== src/NodeAllocator/Get.antt =====
-- `get` gives a node that is not in use.
use rock_coro.Prelude.{
  ℕ, ◌+◌, ◌^◌, ◌<◌, ◌≡◌, ◌≢◌, refl, ap, sym, ◌∙◌, subst, true, false, ◌==◌, arith, Bool-cases, inl,
  inr, ◌⊎◌, List, [], ◌∷◌, some,
}
use rock_coro.TaggedPtr.{get_ptr}
use rock_coro.TaggedPtr.Fields.{get_ptr_lem}
use rock_coro.NodeAllocator.{set, Nodes, without_head, pop, get_from, NodeAllocator, get}
use rock_coro.NodeAllocator.Chain.{Has, Chain, Held, set_other, set-Chain, tail-Held}
use rock_coro.NodeAllocator.Drop.{null_word}
use rock_coro.NodeAllocator.Valid.{
  IsValid, InUse, MayRun, set_same, moved-Held, put-IsValid, init_thread_local_cache_lem,
}

-- `new` returns an address in user space that is not allocated.
abbrev pub IsFresh : ℕ → NodeAllocator → Type 0
IsFresh fresh s = (0 < fresh) × (fresh < 2 ^ 48) × (s.nodes.allocated fresh ≡ false)

pub record Got (s : NodeAllocator) (lists : ℕ → List ℕ) (s' : NodeAllocator) (lists' : ℕ → List ℕ)
    (node : ℕ) : Type 0 where
  pub valid : IsValid s' lists'
  pub not_null : get_ptr node ≢ 0
  pub was_free : ¬ InUse s lists (get_ptr node)
  pub in_use : InUse s' lists' (get_ptr node)
  pub others : (a : ℕ) → InUse s lists a → InUse s' lists' a
  pub no_others : (a : ℕ) → InUse s' lists' a → InUse s lists a ⊎ (a ≡ get_ptr node)
  pub not_released : s'.nodes.released (get_ptr node) ≡ false
  pub no_next : s'.nodes.next (get_ptr node) ≡ 0

module _ (fresh : ℕ) (s : NodeAllocator) (lists : ℕ → List ℕ) (v : IsValid s lists) (i : ℕ)
    (lt : i < s.caches_count) where
  -- The nodes of the cache are not written.
  out_of_lists : (a : ℕ) → s.nodes.allocated a ≡ false → (j : ℕ) → ¬ Has a (lists j)
  out_of_lists a e j h = let live = (v.held j).in_memory a h in cc (sym live ∙ e)

  module _ (fr : IsFresh fresh s) (empty : lists i ≡ []) where
    made : Nodes
    made = record s.nodes {
      next = set (set s.nodes.next fresh 0) (get_ptr fresh) 0;
      value = set s.nodes.value fresh 0;
      released = set s.nodes.released (get_ptr fresh) false;
      allocated = set s.nodes.allocated fresh true;
      new_count = s.nodes.new_count + 1;
    }

    own_address : get_ptr fresh ≡ fresh
    own_address = let (pos, fits, out) = fr in omega (arith, get_ptr_lem fresh)

    stays_allocated :
        (a : ℕ) → s.nodes.allocated a ≡ true → set s.nodes.allocated fresh true a ≡ true
    stays_allocated a e = elim (Bool-cases (a == fresh)) [ inl f ↦ rw f refl | inr f ↦ rw f e ]

    not_listed : (j : ℕ) → ¬ Has fresh (lists j)
    not_listed = let (pos, fits, out) = fr in out_of_lists fresh out

    made-Held : (j : ℕ) → Held made (s.caches j) (lists j)
    unfolding made
    made-Held j =
        let head = (s.caches j).head in
        let one = set-Chain s.nodes.next fresh 0 head (lists j) (not_listed j) (v.held j).chain in
        moved-Held s.nodes made (s.caches j) (lists j) (v.held j)
          (set-Chain (set s.nodes.next fresh 0) (get_ptr fresh) 0 head (lists j)
            (subst (λ a. ¬ Has a (lists j)) (sym own_address) (not_listed j)) one)
          (λ a q. stays_allocated a ((v.held j).in_memory a q))

    in_old : (a j : ℕ) → Has a (set lists i [] j) → Has a (lists j)
    in_old a j q = elim (Bool-cases (j == i)) [ inl f ↦ absurd (rw f at q) | inr f ↦ rw f at q ]

    in_made : (a j : ℕ) → Has a (lists j) → Has a (set lists i [] j)
    in_made a j q = elim (Bool-cases (j == i)) [
      | inl f ↦ let same : j ≡ i = ground arith in absurd (subst (Has a) (ap lists same ∙ empty) q)
      | inr f ↦ rw f q
    ]

    was_allocated : (a : ℕ) → a ≢ fresh → made.allocated a ≡ true → s.nodes.allocated a ≡ true
    unfolding made
    was_allocated a n e = sym (set_other s.nodes.allocated fresh a true n) ∙ e

    from_memory :
        (s' : NodeAllocator) × (node : ℕ) × (get_from fresh (some (s, i)) ≡ some (s', node))
        × Got s lists s' (set lists i []) node
    unfolding pop made
    from_memory =
        let (pos, fits, out) = fr in
        let null : (get_ptr (s.caches i).head == 0) ≡ true =
          let e = subst (Chain s.nodes.next (s.caches i).head) empty (v.held i).chain in
          rw e refl in
        let null_again : (get_ptr 0 == 0) ≡ true = rw null_word refl in
        (
          record s { nodes = made; caches = set s.caches i (s.caches i) },
          fresh,
          rw (null, null_again) refl,
          record {
            valid =
                put-IsValid s lists v made i (s.caches i) [] lt
                  (subst (Held made (s.caches i)) empty (made-Held i)) (v.bounded i)
                  (λ j m. made-Held j) (λ j a m q. absurd q);
            not_null = omega (arith, own_address, pos);
            was_free = λ u. cc (sym u.0 ∙ ap s.nodes.allocated own_address ∙ out);
            in_use = (
              ap made.allocated own_address ∙ set_same s.nodes.allocated fresh true,
              λ j q.
                  not_listed j
                    (subst (λ a. Has a (lists j)) own_address (in_old (get_ptr fresh) j q)),
            );
            others = λ a u. (stays_allocated a u.0, λ j q. u.1 j (in_old a j q));
            no_others = λ a u. elim (Bool-cases (a == fresh)) [
              | inl f ↦ inr (ground (arith, own_address))
              | inr f ↦ inl (was_allocated a (ground arith) u.0, λ j q. u.1 j (in_made a j q))
            ];
            not_released = set_same s.nodes.released (get_ptr fresh) false;
            no_next = set_same (set s.nodes.next fresh 0) (get_ptr fresh) 0;
          },
        )

  from_cache :
      (x : ℕ) (xs : List ℕ)
      → lists i ≡ x ∷ xs
      → (s' : NodeAllocator) × (node : ℕ) × (get_from fresh (some (s, i)) ≡ some (s', node))
        × Got s lists s' (set lists i xs) node
  unfolding pop
  from_cache x xs e =
      let c = s.caches i in
      let n = s.nodes in
      let h : Held n c (x ∷ xs) = subst (Held n c) e (v.held i) in
      let (at_head, x_not_null, rest) = h.chain in
      let (out, distinct) = h.distinct in
      let node = c.head in
      let a = get_ptr node in
      let null : (a == 0) ≡ false = ground (arith, at_head) in
      let n' : Nodes = record n { released = set n.released a false; next = set n.next a 0 } in
      let s' : NodeAllocator = record s {
        nodes = n';
        caches = set s.caches i (without_head n c);
      } in
      let here : Has a (lists i) = subst (Has a) (sym e) (inl (sym at_head)) in
      let away : (j : ℕ) → j ≢ i → ¬ Has a (lists j) = λ j m q. m (v.apart j i a q here) in
      let out_of_rest : ¬ Has a xs = λ q. out (subst (λ b. Has b xs) at_head q) in
      let t = tail-Held n c x xs h in
      let valid : IsValid s' (set lists i xs) =
        put-IsValid s lists v n' i (without_head n c) xs lt
          (moved-Held n n' (without_head n c) xs t
            (set-Chain n.next a 0 (n.next a) xs out_of_rest t.chain) t.in_memory)
          (omega (arith, v.bounded i))
          (λ j m.
            moved-Held n n' (s.caches j) (lists j) (v.held j)
              (set-Chain n.next a 0 (s.caches j).head (lists j) (away j m) (v.held j).chain)
              (v.held j).in_memory)
          (λ j b m q r. m (v.apart j i b r (subst (Has b) (sym e) (inr q)))) in
      let in_new : (b j : ℕ) → Has b (set lists i xs j) → Has b (lists j) = λ b j q.
        elim (Bool-cases (j == i)) [
          | inl f ↦
              let same : i ≡ j = ground arith in
              subst (λ k. Has b (lists k)) same (subst (Has b) (sym e) (inr (rw f at q)))
          | inr f ↦ rw f at q
        ] in
      let still_listed : (b j : ℕ)
          → b ≢ a
          → Has b (lists j)
          → ((k : ℕ) → ¬ Has b (set lists i xs k))
          → ⊥ =
        λ b j m q free. elim (Bool-cases (j == i)) [
          | inl f ↦
              let same : j ≡ i = ground arith in
              elim (subst (Has b) (ap lists same ∙ e) q) [
                | inl g ↦ m (sym g ∙ sym at_head)
                | inr r ↦ free i (subst (Has b) (sym (set_same lists i xs)) r)
              ]
          | inr f ↦ free j (subst (Has b) (sym (set_other lists i j xs (ground arith))) q)
        ] in
      (
        s',
        node,
        rw (null, null) refl,
        record {
          valid = valid;
          not_null = λ z. x_not_null (sym at_head ∙ z);
          was_free = λ u. u.1 i here;
          in_use = (
            subst (λ b. n.allocated b ≡ true) (sym at_head) (h.in_memory x (inl refl)),
            λ j q. elim (Bool-cases (j == i)) [
              | inl f ↦ out_of_rest (rw f at q)
              | inr f ↦ away j (ground arith) (rw f at q)
            ],
          );
          others = λ b u. (u.0, λ j q. u.1 j (in_new b j q));
          no_others = λ b u. elim (Bool-cases (b == a)) [
            | inl f ↦ inr (ground arith)
            | inr f ↦ inl (u.0, λ j q. still_listed b j (ground arith) q u.1)
          ];
          not_released = set_same n.released a false;
          no_next = set_same n.next a 0;
        },
      )

  -- Either way.
  pub get_from_lem :
      IsFresh fresh s
      → (s' : NodeAllocator) × (lists' : ℕ → List ℕ) × (node : ℕ) × (get_from fresh (some (s, i))
          ≡ some (s', node))
        × Got s lists s' lists' node
  get_from_lem fr = go (lists i) refl
    where
      go :
          (own : List ℕ)
          → lists i ≡ own
          → (s' : NodeAllocator) × (lists' : ℕ → List ℕ) × (node : ℕ) × (get_from fresh
                (some (s, i))
              ≡ some (s', node))
            × Got s lists s' lists' node
      go [] e = let (s', node, f, g) = from_memory fr e in (s', set lists i [], node, f, g)
      go (x ∷ xs) e = let (s', node, f, g) = from_cache x xs e in (s', set lists i xs, node, f, g)

pub get_lem :
    (t fresh : ℕ) (s : NodeAllocator) (lists : ℕ → List ℕ)
    → IsValid s lists
    → MayRun t s
    → IsFresh fresh s
    → (s' : NodeAllocator) × (lists' : ℕ → List ℕ) × (node : ℕ) × (get t fresh s ≡ some (s', node))
      × Got s lists s' lists' node
unfolding get
get_lem t fresh s lists v may (pos, fits, out) =
    let (s1, i, e, r) = init_thread_local_cache_lem t s lists v may in
    let same : (a : ℕ) → s1.nodes.allocated a ≡ s.nodes.allocated a =
      λ a. ap (λ (n : Nodes). n.allocated a) r.nodes_eq in
    let (s', lists', node, f, g) =
      get_from_lem fresh s1 lists r.valid i (r.valid.registered t i r.own)
        (pos, fits, same fresh ∙ out) in
    (
      s',
      lists',
      node,
      ap (get_from fresh) e ∙ f,
      record {
        valid = g.valid;
        not_null = g.not_null;
        was_free = λ u. g.was_free (same (get_ptr node) ∙ u.0, u.1);
        in_use = g.in_use;
        others = λ a u. g.others a (same a ∙ u.0, u.1);
        no_others =
            λ a u. elim (g.no_others a u) [ inl w ↦ inl (sym (same a) ∙ w.0, w.1) | inr w ↦ inr w ];
        not_released = g.not_released;
        no_next = g.no_next;
      },
    )
