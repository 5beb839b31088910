-- ===== src/NodeAllocator/Destroy.antt =====
-- `destroy` gives the nodes of all caches back to the memory, and no others.
use rock_coro.Prelude.{
  ℕ, zero, suc, ◌≤◌, ◌<◌, ◌≡◌, ◌↔◌, refl, sym, subst, true, false, ◌==◌, arith, Bool-cases, inl,
  inr, List, [], ◌∷◌, length, ltb,
}
use rock_coro.TaggedPtr.{get_ptr}
use rock_coro.NodeAllocator.{
  cache_count, set, Nodes, Cache, delete, destroy_cache, NodeAllocator, destroy_caches, destroy,
}
use rock_coro.NodeAllocator.Chain.{
  Has, Chain, Held, set_other, Dropped, Dropped-refl, Dropped-trans, delete-Held, delete-Dropped,
}
use rock_coro.NodeAllocator.Valid.{IsValid, InUse}

-- The cache, with its count as it would be.
abbrev counted_cache : ℕ → List ℕ → Cache
counted_cache head xs = record { head = head; count = length xs }

destroy_cache-Dropped :
    (fuel : ℕ) (n : Nodes) (c : Cache) (xs : List ℕ)
    → Held n (counted_cache c.head xs) xs
    → length xs ≤ fuel
    → Dropped n (destroy_cache fuel n c).0 xs []
unfolding destroy_cache
destroy_cache-Dropped zero n c [] h le = Dropped-refl n []
destroy_cache-Dropped zero n c (x ∷ xs) h le = absurd (omega arith)
destroy_cache-Dropped (suc fuel) n c [] h le =
    let null : (get_ptr c.head == 0) ≡ true = let e = h.chain in rw e refl in
    rw null (Dropped-refl n [])
destroy_cache-Dropped (suc fuel) n c (x ∷ xs) h le =
    let (at_head, not_null, chain) = h.chain in
    let null : (get_ptr c.head == 0) ≡ false = ground (arith, at_head, not_null) in
    let n1 = delete c.head n in
    let c1 : Cache = record c { head = n.next (get_ptr c.head) } in
    let k = counted_cache c.head (x ∷ xs) in
    let t = delete-Held n k x xs h in
    let h1 : Held n1 (counted_cache c1.head xs) xs = record {
      chain = t.chain;
      distinct = t.distinct;
      in_memory = t.in_memory;
      counted = refl;
    } in
    rw null (
      Dropped-trans n n1 (destroy_cache fuel n1 c1).0 (x ∷ xs) xs [] (delete-Dropped n k x xs h)
        (destroy_cache-Dropped fuel n1 c1 xs h1 (omega arith)))

-- The memory without the nodes of the first `k` lists.
record Emptied (k : ℕ) (lists : ℕ → List ℕ) (n n' : Nodes) : Type 0 where
  gone :
      (a : ℕ)
      → n'.allocated a ≡ true
      → (n.allocated a ≡ true) × ((j : ℕ) → j < k → ¬ Has a (lists j))
  stays :
      (a : ℕ) → n.allocated a ≡ true → ((j : ℕ) → j < k → ¬ Has a (lists j)) → n'.allocated a ≡ true

module _ (lists : ℕ → List ℕ)
    (apart : (i j a : ℕ) → Has a (lists i) → Has a (lists j) → i ≡ j) where
  destroy_caches-Emptied :
      (k : ℕ) (s : NodeAllocator)
      → ((i : ℕ) → i < k → Held s.nodes (s.caches i) (lists i))
      → ((i : ℕ) → i < k → (s.caches i).count < cache_count)
      → Emptied k lists s.nodes (destroy_caches k s).nodes
  unfolding destroy_caches
  destroy_caches-Emptied zero s held few = record {
    gone = λ a e. (e, λ j lt. absurd (omega (arith, lt)));
    stays = λ a e out. e;
  }
  destroy_caches-Emptied (suc k) s held few =
      let c = s.caches k in
      let h = held k (omega arith) in
      let own : Held s.nodes (counted_cache c.head (lists k)) (lists k) = record {
        chain = h.chain;
        distinct = h.distinct;
        in_memory = h.in_memory;
        counted = refl;
      } in
      let d =
        destroy_cache-Dropped cache_count s.nodes c (lists k) own
          (omega (arith, h.counted, few k (omega arith))) in
      let result = destroy_cache cache_count s.nodes c in
      let s1 : NodeAllocator = record s { nodes = result.0; caches = set s.caches k result.1 } in
      let same : (i : ℕ) → i < k → s1.caches i ≡ s.caches i =
        λ i lt. set_other s.caches k i result.1 (omega arith) in
      let left : (i : ℕ) → i < k → Held s1.nodes (s1.caches i) (lists i) = λ i lt.
        let h_i = held i (omega arith) in
        subst (λ b. Held s1.nodes b (lists i)) (sym (same i lt))
          (record {
            chain =
                subst (λ next. Chain next (s.caches i).head (lists i)) (sym d.next_eq) h_i.chain;
            distinct = h_i.distinct;
            in_memory = λ a q.
                d.stays a (λ r. absurd (omega (arith, lt, apart k i a r q))) (h_i.in_memory a q);
            counted = h_i.counted;
          }) in
      let e =
        destroy_caches-Emptied k s1 left
          (λ i lt. subst (λ b. b.count < cache_count) (sym (same i lt)) (few i (omega arith))) in
      record {
        gone = λ a live.
            let (was, out) = e.gone a live in
            (
              d.was_in_memory a was,
              λ j lt q. elim (Bool-cases (j == k)) [
                | inl f ↦
                    let at_k : j ≡ k = ground arith in
                    d.gone a was (subst (λ i. Has a (lists i)) at_k q)
                | inr f ↦ out j (ground arith) q
              ],
            );
        stays = λ a live out.
            e.stays a (d.stays a (out k (omega arith)) live) (λ j lt. out j (omega arith));
      }

pub destroy_lem :
    (s : NodeAllocator) (lists : ℕ → List ℕ) (a : ℕ)
    → IsValid s lists
    → ((destroy s).nodes.allocated a ≡ true) ↔ InUse s lists a
unfolding destroy
destroy_lem s lists a v =
    let e =
      destroy_caches-Emptied lists v.apart s.caches_count s (λ i lt. v.held i)
        (λ i lt. v.bounded i) in
    (
      λ live.
          let (was, out) = e.gone a live in
          (
            was,
            λ j q. elim (Bool-cases (ltb j s.caches_count)) [
              | inl f ↦ out j (ground arith) q
              | inr f ↦ subst (Has a) (v.unused j (ground arith)) q
            ],
          ),
      λ u. e.stays a u.0 (λ j lt. u.1 j),
    )
