-- ===== src/BasicStruct/MinHeap/Loops.antt =====
-- `sift_up` and `sift_down` give a heap, whatever fuel they have beyond what they need.
use rock_coro.Prelude.{
  if◌then◌else◌, ap, ◌≢◌, ◌∙◌, ℕ, zero, suc, ◌+◌, ◌*◌, ◌≤◌, ◌<◌, ◌≡◌, refl, sym, subst, Bool, true,
  false, ◌&&◌, ◌==◌, ltb, arith, Bool-cases, inl, inr, ==_refl,
}
use rock_coro.BasicStruct.ObjectPool.{Object}
use rock_coro.BasicStruct.MinHeap.{IntrusiveHeap, parent, swap_node, smallest, sift_up, sift_down}
use rock_coro.BasicStruct.MinHeap.Index.{WellIndexed, swap_node-WellIndexed}
use rock_coro.BasicStruct.MinHeap.Order.{
  Settled, IsOrder, AtMost, IsHeap, UpTo, DownTo, swap_up, swap_down,
}
use rock_coro.BasicStruct.MinHeap.Sift.{
  Rearranged, Rearranged-refl, Rearranged-swap, and_true, and_false, smallest_lem,
}

module _ (less : Object → Object → Bool) where
  up_IsHeap :
      (i : ℕ) (h : IntrusiveHeap)
      → UpTo less i h
      → (0 < i → AtMost less h (parent i) i)
      → IsHeap less h
  up_IsHeap i h u top j a b = elim (Bool-cases (j == i)) [
    | inl e ↦
        let same_index : i ≡ j = ground arith in
        subst (λ k. 0 < k → AtMost less h (parent k) k) same_index top a
    | inr e ↦ u.edges j a b (ground arith)
  ]

  down_IsHeap : (i : ℕ) (h : IntrusiveHeap) → DownTo less i h → Settled less i h → IsHeap less h
  down_IsHeap i h d settled j a b = elim (Bool-cases (parent j == i)) [
    | inl e ↦
        let same_index : parent j ≡ i = ground arith in
        subst (λ k. AtMost less h k j) (sym same_index) (settled j a b same_index)
    | inr e ↦ d.edges j a b (ground arith)
  ]

  -- A round of `sift_down` that stops, and one that goes on.
  pub stops :
      (fuel i : ℕ) (h : IntrusiveHeap) → smallest less i h ≡ i → sift_down less (suc fuel) i h ≡ h
  unfolding sift_down
  stops fuel i h e =
      let s = smallest less i h in
      let stop : (s == i) ≡ true = ground arith in
      ap (λ b. if b then h else sift_down less fuel s (swap_node i s h)) stop

  goes_on :
      (fuel i : ℕ) (h : IntrusiveHeap)
      → smallest less i h ≢ i
      → sift_down less (suc fuel) i h
        ≡ sift_down less fuel (smallest less i h) (swap_node i (smallest less i h) h)
  unfolding sift_down
  goes_on fuel i h n =
      let s = smallest less i h in
      let stop : (s == i) ≡ false = ground arith in
      ap (λ b. if b then h else sift_down less fuel s (swap_node i s h)) stop

  module _ (o : IsOrder less) where
    pub sift_up_lem :
        (fuel i : ℕ) (h : IntrusiveHeap)
        → i ≤ fuel
        → i < h.size
        → WellIndexed h
        → UpTo less i h
        → IsHeap less (sift_up less fuel i h) × Rearranged h (sift_up less fuel i h)
    unfolding sift_up swap_node
    sift_up_lem zero i h enough lt w u =
        (up_IsHeap i h u (λ pos. absurd (omega arith)), Rearranged-refl h w)
    sift_up_lem (suc fuel) i h enough lt w u =
        let p = parent i in
        elim (Bool-cases (ltb 0 i && less (h.items i) (h.items p))) [
          | inl e ↦
              let (pos, small) = and_true (ltb 0 i) (less (h.items i) (h.items p)) e in
              let i_pos : 0 < i = ground arith in
              let p_lt : p < h.size = omega arith in
              let (heap, r) =
                sift_up_lem fuel p (swap_node i p h) (omega arith) p_lt
                  (swap_node-WellIndexed i p h w lt p_lt) (swap_up less o i h i_pos lt small u) in
              rw e (heap, Rearranged-swap i p h (sift_up less fuel p (swap_node i p h)) w lt p_lt r)
          | inr e ↦ rw e (
            up_IsHeap i h u
                (λ pos. and_false (ltb 0 i) (less (h.items i) (h.items p)) e (ground arith)),
            Rearranged-refl h w,
          )
        ]

    pub sift_down_lem :
        (fuel i : ℕ) (h : IntrusiveHeap)
        → h.size ≤ fuel + i
        → i < h.size
        → WellIndexed h
        → DownTo less i h
        → IsHeap less (sift_down less fuel i h) × Rearranged h (sift_down less fuel i h)
    unfolding swap_node
    sift_down_lem zero i h enough lt w d = absurd (omega arith)
    sift_down_lem (suc fuel) i h enough lt w d =
        let s = smallest less i h in
        let Restored : IntrusiveHeap → Type 0 = λ g. IsHeap less g × Rearranged h g in
        elim (smallest_lem less o i h) [
          | inl (e, settled) ↦
              subst Restored (sym (stops fuel i h e))
                (down_IsHeap i h d settled, Rearranged-refl h w)
          | inr c ↦
              let (s_pos, s_lt, s_i, small, best) = c in
              let s_apart : s ≢ i = omega (arith, s_i) in
              let (heap, r) =
                sift_down_lem fuel s (swap_node i s h) (omega arith) s_lt
                  (swap_node-WellIndexed i s h w lt s_lt) (swap_down less o i s h lt c d) in
              subst Restored (sym (goes_on fuel i h s_apart))
                (heap, Rearranged-swap i s h (sift_down less fuel s (swap_node i s h)) w lt s_lt r)
        ]

    at_root : (fuel i : ℕ) (h : IntrusiveHeap) → i ≤ 0 → sift_up less fuel i h ≡ h
    unfolding sift_up
    at_root zero i h low = refl
    at_root (suc fuel) i h low = let stop : ltb 0 i ≡ false = ground arith in rw stop refl

    beyond : (fuel i : ℕ) (h : IntrusiveHeap) → h.size ≤ i → sift_down less fuel i h ≡ h
    unfolding sift_down
    beyond zero i h high = refl
    beyond (suc fuel) i h high =
        let l : ltb (i * 2 + 1) h.size ≡ false = ground arith in
        let r : ltb (i * 2 + 2) h.size ≡ false = ground arith in rw (l, r, ==_refl i) refl

    -- More fuel changes nothing.
    pub sift_up_more :
        (fuel more i : ℕ) (h : IntrusiveHeap)
        → i ≤ fuel
        → fuel ≤ more
        → sift_up less more i h ≡ sift_up less fuel i h
    unfolding sift_up
    sift_up_more zero more i h enough le = at_root more i h enough
    sift_up_more (suc fuel) zero i h enough le = absurd (omega arith)
    sift_up_more (suc fuel) (suc more) i h enough le =
        let p = parent i in
        elim (Bool-cases (ltb 0 i && less (h.items i) (h.items p))) [
          | inl e ↦
              let (pos, small) = and_true (ltb 0 i) (less (h.items i) (h.items p)) e in
              rw e (sift_up_more fuel more p (swap_node i p h) (ground arith) (omega arith))
          | inr e ↦ rw e refl
        ]

    pub sift_down_more :
        (fuel more i : ℕ) (h : IntrusiveHeap)
        → h.size ≤ fuel + i
        → fuel ≤ more
        → sift_down less more i h ≡ sift_down less fuel i h
    unfolding swap_node sift_down
    sift_down_more zero more i h enough le = beyond more i h (omega arith)
    sift_down_more (suc fuel) zero i h enough le = absurd (omega arith)
    sift_down_more (suc fuel) (suc more) i h enough le =
        let s = smallest less i h in
        elim (smallest_lem less o i h) [
          | inl (e, settled) ↦ stops more i h e ∙ sym (stops fuel i h e)
          | inr (s_pos, s_lt, s_i, small, best) ↦
              let s_apart : s ≢ i = omega (arith, s_i) in
              goes_on more i h s_apart
              ∙ sift_down_more fuel more s (swap_node i s h) (omega arith) (omega arith)
              ∙ sym (goes_on fuel i h s_apart)
        ]
