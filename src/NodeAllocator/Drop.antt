-- ===== src/NodeAllocator/Drop.antt =====
-- The loops that give nodes back to the memory.
use rock_coro.Prelude.{
  ℕ, zero, suc, ◌-◌, ◌≡◌, ◌≢◌, refl, sym, ◌∙◌, subst, true, false, ◌==◌, arith, List, [], ◌∷◌,
  length,
}
use rock_coro.TaggedPtr.{get_ptr}
use rock_coro.TaggedPtr.Fields.{get_ptr_lem}
use rock_coro.NodeAllocator.{Nodes, Cache, without_head, delete, pop, drop_nodes}
use rock_coro.NodeAllocator.Chain.{
  Held, Dropped, Dropped-refl, Dropped-trans, delete-Held, delete-Dropped,
}

pub null_word : get_ptr 0 ≡ 0
null_word = omega (arith, get_ptr_lem 0)

-- What `drop_nodes` does to the nodes of a cache.
pub record DroppedTo (n : Nodes) (xs : List ℕ) (left : ℕ) (result : Nodes × Cache) : Type 0 where
  pub rest : List ℕ
  pub held : Held (result.0) (result.1) rest
  pub dropped : Dropped n (result.0) xs rest
  pub remaining : length rest ≡ left

drop_end :
    (rounds : ℕ) (n : Nodes) (c : Cache) → get_ptr c.head ≡ 0 → drop_nodes rounds n c ≡ (n, c)
unfolding drop_nodes pop
drop_end zero n c e = refl
drop_end (suc rounds) n c e =
    let null : (get_ptr c.head == 0) ≡ true = rw e refl in
    let null_again : (get_ptr 0 == 0) ≡ true = rw null_word refl in rw (null, null_again) refl

drop_goes :
    (rounds : ℕ) (n : Nodes) (c : Cache)
    → get_ptr c.head ≢ 0
    → drop_nodes (suc rounds) n c ≡ drop_nodes rounds (delete c.head n) (without_head n c)
unfolding drop_nodes pop
drop_goes rounds n c e =
    let null : (get_ptr c.head == 0) ≡ false = ground arith in rw (null, null) refl

pub drop_nodes_lem :
    (rounds : ℕ) (n : Nodes) (c : Cache) (xs : List ℕ)
    → Held n c xs
    → DroppedTo n xs (length xs - rounds) (drop_nodes rounds n c)
unfolding drop_nodes
drop_nodes_lem zero n c xs h = record {
  rest = xs;
  held = h;
  dropped = Dropped-refl n xs;
  remaining = omega arith;
}
drop_nodes_lem (suc rounds) n c [] h =
    subst (DroppedTo n [] (0 - suc rounds)) (sym (drop_end (suc rounds) n c h.chain))
      (record { rest = []; held = h; dropped = Dropped-refl n []; remaining = omega arith })
drop_nodes_lem (suc rounds) n c (x ∷ xs) h =
    let (at_head, not_null, chain) = h.chain in
    let d =
      drop_nodes_lem rounds (delete c.head n) (without_head n c) xs (delete-Held n c x xs h) in
    subst (DroppedTo n (x ∷ xs) (length (x ∷ xs) - suc rounds))
      (sym (drop_goes rounds n c (λ e. not_null (sym at_head ∙ e))))
      (record {
        rest = d.rest;
        held = d.held;
        dropped =
            Dropped-trans n (delete c.head n)
              (drop_nodes rounds (delete c.head n) (without_head n c)).0 (x ∷ xs) xs d.rest
              (delete-Dropped n c x xs h) d.dropped;
        remaining = omega (arith, d.remaining);
      })
