-- ===== src/BasicStruct/MinHeap/Around.antt =====
-- A heap in which one object may have to go either way.
use rock_coro.Prelude.{
  ℕ, zero, suc, ◌+◌, ◌≤◌, ◌<◌, ◌≡◌, ◌≢◌, refl, ap, sym, ◌∙◌, subst, Bool, true, false, ◌==◌, ltb,
  if◌then◌else◌, arith, Bool-cases, inl, inr,
}
use rock_coro.BasicStruct.ObjectPool.{Object}
use rock_coro.BasicStruct.MinHeap.{IntrusiveHeap, parent, smallest, sift_up, sift_down}
use rock_coro.BasicStruct.MinHeap.Index.{WellIndexed}
use rock_coro.BasicStruct.MinHeap.Order.{
  IsOrder, Le-eq, AtMost, IsHeap, Bridged, UpTo, DownTo, edge,
}
use rock_coro.BasicStruct.MinHeap.Sift.{Rearranged, Le-refl, smallest_lem}
use rock_coro.BasicStruct.MinHeap.Loops.{sift_up_lem, sift_down_lem, stops}

pub record Restored (less : Object → Object → Bool) (h h' : IntrusiveHeap) : Type 0 where
  pub is_heap : IsHeap less h'
  pub rearranged : Rearranged h h'

module _ (less : Object → Object → Bool) where
  pub record Around (i : ℕ) (h : IntrusiveHeap) : Type 0 where
    pub edges : (j : ℕ) → 0 < j → j < h.size → j ≢ i → parent j ≢ i → AtMost less h (parent j) j
    pub bridged : Bridged less i h

  module _ (o : IsOrder less) (i : ℕ) (h : IntrusiveHeap) where
    -- It goes up.
    Around-up : less (h.items i) (h.items (parent i)) ≡ true → 0 < i → Around i h → UpTo less i h
    Around-up small pos a = record {
      edges = λ j p q n. elim (Bool-cases (parent j == i)) [
        | inl e ↦
            let child : parent j ≡ i = ground arith in
            Le-eq less (ap h.items child) refl (
              o.trans (h.items i) (h.items (parent i)) (h.items j)
                (o.asym (h.items i) (h.items (parent i)) small) (a.bridged j pos p q child))
        | inr e ↦ a.edges j p q n (ground arith)
      ];
      bridged = a.bridged;
    }

    -- It goes down, if it moves.
    Around-down : (0 < i → AtMost less h (parent i) i) → Around i h → DownTo less i h
    Around-down top a = record {
      edges = λ j p q n. elim (Bool-cases (j == i)) [
        | inl e ↦
            let same_index : i ≡ j = ground arith in
            subst (λ k. 0 < k → AtMost less h (parent k) k) same_index top p
        | inr e ↦ a.edges j p q (ground arith) n
      ];
      bridged = a.bridged;
    }

    -- What goes up does not go down.
    still :
        (fuel : ℕ)
        → less (h.items i) (h.items (parent i)) ≡ true
        → 0 < i
        → Around i h
        → sift_down less fuel i h ≡ h
    unfolding sift_down
    still zero small pos a = refl
    still (suc fuel) small pos a =
        let p = parent i in
        let s = smallest less i h in
        elim (smallest_lem less o i h) [
          | inl (e, settled) ↦ stops less fuel i h e
          | inr (s_pos, s_lt, s_i, before, best) ↦
              let behind =
                o.trans (h.items i) (h.items p) (h.items s) (o.asym (h.items i) (h.items p) small)
                  (a.bridged s pos s_pos s_lt s_i) in
              absurd (cc (sym before ∙ behind))
        ]

    IsHeap-up : i < h.size → IsHeap less h → UpTo less i h
    IsHeap-up lt heap = record {
      edges = λ j p q n. heap j p q;
      bridged = λ j pos p q child.
          o.trans (h.items (parent i)) (h.items i) (h.items j) (heap i pos lt)
            (edge less h i j child (heap j p q));
    }

    small_above : less (h.items i) (h.items (parent i)) ≡ true → 0 < i
    small_above small = elim (Bool-cases (ltb 0 i)) [
      | inl e ↦ ground arith
      | inr e ↦
          let root : parent i ≡ i = ground arith in
          absurd (cc (sym small ∙ Le-eq less (ap h.items root) refl (Le-refl less o (h.items i))))
    ]

  module _ (o : IsOrder less) (fuel i : ℕ) (h : IntrusiveHeap) (enough : h.size ≤ fuel + i)
      (lt : i < h.size) (w : WellIndexed h) (a : Around i h) where
    goes_up : less (h.items i) (h.items (parent i)) ≡ true → Restored less h (sift_up less i i h)
    goes_up small =
        let pos = small_above o i h small in
        let (heap, r) = sift_up_lem less o i i h (omega arith) lt w (Around-up o i h small pos a) in
        record { is_heap = heap; rearranged = r }

    goes_down :
        less (h.items i) (h.items (parent i)) ≡ false → Restored less h (sift_down less fuel i h)
    goes_down large =
        let (heap, r) =
          sift_down_lem less o fuel i h enough lt w (Around-down o i h (λ _. large) a) in
        record { is_heap = heap; rearranged = r }

    -- Both loops, one after the other.
    pub both_ways : Restored less h (sift_up less i i (sift_down less fuel i h))
    both_ways = elim (Bool-cases (less (h.items i) (h.items (parent i)))) [
      | inl e ↦
          subst (λ g. Restored less h (sift_up less i i g))
            (sym (still o i h fuel e (small_above o i h e) a)) (goes_up e)
      | inr e ↦
          let g = sift_down less fuel i h in
          let d = goes_down e in
          let i_lt : i < g.size = subst (λ n. i < n) (sym d.rearranged.size_eq) lt in
          let (heap, r) =
            sift_up_lem less o i i g (omega arith) i_lt d.rearranged.indexed
              (IsHeap-up o i g i_lt d.is_heap) in
          record {
            is_heap = heap;
            rearranged = record {
              size_eq = r.size_eq ∙ d.rearranged.size_eq;
              indexed = r.indexed;
              held_eq = λ x. r.held_eq x ∙ d.rearranged.held_eq x;
            };
          }
    ]

    -- One of the loops, by a comparison with the parent.
    pub either_way : Restored less h (
        if less (h.items i) (h.items (parent i))
        then sift_up less i i h
        else sift_down less fuel i h)
    either_way = elim (Bool-cases (less (h.items i) (h.items (parent i)))) [
      | inl e ↦ rw e (goes_up e)
      | inr e ↦ rw e (goes_down e)
    ]
