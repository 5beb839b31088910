-- ===== src/NodeAllocator/Release.antt =====
-- `release` puts a node into the cache of the thread, which stays below its bound.
use rock_coro.Prelude.{
  ℕ, ◌+◌, ◌<◌, ◌≡◌, ◌≢◌, refl, ap, sym, ◌∙◌, subst, true, ◌==◌, arith, Bool-cases, inl, inr, List,
  ◌∷◌, some, ltb,
}
use rock_coro.TaggedPtr.{get_ptr}
use rock_coro.NodeAllocator.{
  cache_count, batch_count, set, Nodes, Cache, push, drop_nodes, batch_release, release_to,
  NodeAllocator, release,
}
use rock_coro.NodeAllocator.Chain.{Has, Chain, Held, set_other, set-Chain, Dropped, Dropped-refl}
use rock_coro.NodeAllocator.Drop.{drop_nodes_lem}
use rock_coro.NodeAllocator.Valid.{
  IsValid, InUse, MayRun, set_same, moved-Held, put-IsValid, init_thread_local_cache_lem,
}

pub record Released (s : NodeAllocator) (lists : ℕ → List ℕ) (s' : NodeAllocator)
    (lists' : ℕ → List ℕ) (node : ℕ) : Type 0 where
  pub valid : IsValid s' lists'
  pub not_in_use : ¬ InUse s' lists' (get_ptr node)
  pub others : (a : ℕ) → InUse s lists a → a ≢ get_ptr node → InUse s' lists' a
  pub no_others : (a : ℕ) → InUse s' lists' a → InUse s lists a

set_twice : {A : Type 0} → (f : ℕ → A) (a : ℕ) (v w : A) → set (set f a v) a w ≡ set f a w
set_twice f a v w = λ k b. again b k
  where
    again : (b : ℕ) → set (set f a v) a w b ≡ set f a w b
    again b = elim (Bool-cases (b == a)) [ inl e ↦ rw e refl | inr e ↦ rw e refl ]

module _ (node : ℕ) (s : NodeAllocator) (lists : ℕ → List ℕ) (v : IsValid s lists) (i : ℕ)
    (lt : i < s.caches_count) (not_null : get_ptr node ≢ 0)
    (used : InUse s lists (get_ptr node)) where
  pushed_nodes : Nodes
  pushed_nodes = record s.nodes {
    released = set s.nodes.released (get_ptr node) true;
    next = set s.nodes.next (get_ptr node) (s.caches i).head;
  }

  pushed_cache : Cache
  pushed_cache = record { head = node; count = (s.caches i).count + 1 }

  pushed-Held : Held pushed_nodes pushed_cache (get_ptr node ∷ lists i)
  unfolding pushed_nodes pushed_cache
  pushed-Held =
      let a = get_ptr node in
      let h = v.held i in
      let head = (s.caches i).head in
      record {
        chain = (
          refl,
          not_null,
          subst (λ w. Chain pushed_nodes.next w (lists i)) (sym (set_same s.nodes.next a head))
              (set-Chain s.nodes.next a head head (lists i) (used.1 i) h.chain),
        );
        distinct = (used.1 i, h.distinct);
        in_memory = λ b. elim [
          | inl e ↦ subst (λ c. s.nodes.allocated c ≡ true) e used.0
          | inr q ↦ h.in_memory b q
        ];
        counted = omega (arith, h.counted);
      }

  -- With some nodes given back, or none.
  module _ (n' : Nodes) (c' : Cache) (rest : List ℕ) (h : Held n' c' rest)
      (d : Dropped pushed_nodes n' (get_ptr node ∷ lists i) rest)
      (few : c'.count < cache_count) where
    not_listed : (j b : ℕ) → j ≢ i → Has b (get_ptr node ∷ lists i) → ¬ Has b (lists j)
    not_listed j b m (inl e) r = used.1 j (subst (λ c. Has c (lists j)) (sym e) r)
    not_listed j b m (inr q) r = m (v.apart j i b r q)

    other-Held : (j : ℕ) → j ≢ i → Held n' (s.caches j) (lists j)
    unfolding pushed_nodes
    other-Held j m =
        let h_j = v.held j in
        moved-Held s.nodes n' (s.caches j) (lists j) h_j
          (subst (λ next. Chain next (s.caches j).head (lists j)) (sym d.next_eq)
            (set-Chain s.nodes.next (get_ptr node) (s.caches i).head (s.caches j).head (lists j)
              (used.1 j) h_j.chain))
          (λ b q. d.stays b (λ r. not_listed j b m r q) (h_j.in_memory b q))

    put-Released :
        Released s lists
          (record s { nodes = n'; caches = set s.caches i c' })
          (set lists i rest)
          node
    unfolding pushed_nodes
    put-Released =
        let a = get_ptr node in
        let no_use_in_rest : (b : ℕ) → InUse s lists b → b ≢ a → ¬ Has b (a ∷ lists i) =
          λ b u m. elim [ inl e ↦ m (sym e) | inr q ↦ u.1 i q ] in
        record {
          valid =
              put-IsValid s lists v n' i c' rest lt h few other-Held
                (λ j b m q. not_listed j b m (d.kept b q));
          not_in_use =
              λ u. u.1 i (subst (Has a) (sym (set_same lists i rest)) (d.gone a u.0 (inl refl)));
          others = λ b u m. (
            d.stays b (no_use_in_rest b u m) u.0,
            λ j q. elim (Bool-cases (j == i)) [
              | inl f ↦ no_use_in_rest b u m (d.kept b (rw f at q))
              | inr f ↦ u.1 j (rw f at q)
            ],
          );
          no_others = λ b u. (
            d.was_in_memory b u.0,
            λ j q. elim (Bool-cases (j == i)) [
              | inl f ↦
                  let same : j ≡ i = ground arith in
                  let q_i = subst (λ k. Has b (lists k)) same q in
                  u.1 i (subst (Has b) (sym (set_same lists i rest)) (d.gone b u.0 (inr q_i)))
              | inr f ↦ u.1 j (subst (Has b) (sym (set_other lists i j rest (ground arith))) q)
            ],
          );
        }

  pub release_to_lem :
      (s' : NodeAllocator) × (lists' : ℕ → List ℕ) × (release_to node (some (s, i)) ≡ some s')
      × Released s lists s' lists' node
  unfolding push batch_release pushed_nodes pushed_cache
  release_to_lem = elim (Bool-cases (ltb ((s.caches i).count + 1) cache_count)) [
    | inl e ↦ (
      record s { nodes = pushed_nodes; caches = set s.caches i pushed_cache },
      set lists i (get_ptr node ∷ lists i),
      rw e refl,
      put-Released pushed_nodes pushed_cache (get_ptr node ∷ lists i) pushed-Held
          (Dropped-refl pushed_nodes (get_ptr node ∷ lists i)) (ground arith),
    )
    | inr e ↦
        let all = get_ptr node ∷ lists i in
        let dropped = drop_nodes batch_count pushed_nodes pushed_cache in
        let d = drop_nodes_lem batch_count pushed_nodes pushed_cache all pushed-Held in
        let cache_eq : set s.caches i pushed_cache i ≡ pushed_cache =
          set_same s.caches i pushed_cache in
        (
          record s { nodes = dropped.0; caches = set s.caches i dropped.1 },
          set lists i d.rest,
          rw e (
              ap
                (λ c. some (record s {
                  nodes = (drop_nodes batch_count pushed_nodes c).0;
                  caches =
                      set (set s.caches i pushed_cache) i (drop_nodes batch_count pushed_nodes c).1;
                }))
                cache_eq
              ∙ ap (λ caches. some (record s { nodes = dropped.0; caches = caches }))
                  (set_twice s.caches i pushed_cache dropped.1)),
          put-Released dropped.0 dropped.1 d.rest d.held d.dropped
              (omega (arith, d.held.counted, d.remaining, (v.held i).counted, v.bounded i)),
        )
  ]

pub release_lem :
    (t node : ℕ) (s : NodeAllocator) (lists : ℕ → List ℕ)
    → IsValid s lists
    → MayRun t s
    → get_ptr node ≢ 0
    → InUse s lists (get_ptr node)
    → (s' : NodeAllocator) × (lists' : ℕ → List ℕ) × (release t node s ≡ some s')
      × Released s lists s' lists' node
unfolding release
release_lem t node s lists v may not_null used =
    let (s1, i, e, r) = init_thread_local_cache_lem t s lists v may in
    let same : (a : ℕ) → s1.nodes.allocated a ≡ s.nodes.allocated a =
      λ a. ap (λ (n : Nodes). n.allocated a) r.nodes_eq in
    let (s', lists', f, g) =
      release_to_lem node s1 lists r.valid i (r.valid.registered t i r.own) not_null
        (same (get_ptr node) ∙ used.0, used.1) in
    (
      s',
      lists',
      ap (release_to node) e ∙ f,
      record {
        valid = g.valid;
        not_in_use = g.not_in_use;
        others = λ a u m. g.others a (same a ∙ u.0, u.1) m;
        no_others = λ a u. let w = g.no_others a u in (sym (same a) ∙ w.0, w.1);
      },
    )
