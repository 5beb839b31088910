-- ===== src/TsLinkedList/Solo.antt =====
-- A call ends if no other thread takes a step: how many steps it has left at most.
use rock_coro.Prelude.{
  ℕ, suc, ◌+◌, ◌-◌, ◌*◌, ◌≤◌, ◌<◌, ◌≡◌, ◌≢◌, refl, ◌∙◌, sym, subst, ap, ap₂, inl, inr, Bool, true,
  false, ◌&&◌, Option, none, some, ◌++◌, arith, ◌==◌, ==_iff, ==_refl, Bool-cases, if◌then◌else◌,
  if_true, if_false, append-nil,
}
use rock_coro.NodeAllocator.{}
use rock_coro.TsLinkedList.{
  Pc, idle, push_get, push_value, push_clear, push_enter, push_tail, push_next, push_link,
  push_help, push_swing, push_done, push_retry, pop_enter, pop_head, pop_tail, pop_check_first,
  pop_check_last, pop_next, pop_help, pop_value, pop_swap, pop_retire, pop_exit, pop_retry, aborted,
  Queue, Thread, inside, go, thread_at, push_branch, pop_branch, seen, works, link, unlink, swing,
  retire,
}
use rock_coro.TsLinkedList.Ghost.{Ghost, Linked, Fits, Memory, Local, node}
use rock_coro.TsLinkedList.Keep.{node_injective, Stepped}
use rock_coro.TsLinkedList.Ends.{held_node, null_is_last, same_number}
use rock_coro.TsLinkedList.Steps.{}
use rock_coro.TsLinkedList.Runs.{}
use rock_coro.TaggedPtr.{get_ptr}

-- In push_back, before it has a node.
abbrev pub waits_for_node : Pc → Bool
waits_for_node (push_get v) = true
waits_for_node _ = false

-- How far the tail is behind the last node.
abbrev pub lag : Ghost → ℕ
lag G = G.last - G.behind

-- A bound on the steps that are left, for `b` of 16 steps for each node that the tail is behind. A
-- word that the queue has moved on from costs one more round.
abbrev pub steps_left : ℕ → Queue → Pc → ℕ
steps_left b q idle = 0
steps_left b q (push_get v) = 0
steps_left b q (push_value w v) = b + 12
steps_left b q (push_clear w v) = b + 11
steps_left b q (push_enter w v) = b + 10
steps_left b q (push_tail w v) = b + 9
steps_left b q (push_next w l v) = if q.tail == l then b + 8 else b + 18
steps_left b q (push_link w l nx v) = if q.next (get_ptr l) == nx then 3 else b + 17
steps_left b q (push_help w l nx v) = if q.tail == l then b + 7 else b + 17
steps_left b q (push_swing w l) = 2
steps_left b q push_done = 1
steps_left b q (push_retry w v) = b + 11
steps_left b q pop_enter = b + 11
steps_left b q pop_head = b + 10
steps_left b q (pop_tail f) = if q.head == f then b + 9 else b + 27
steps_left b q (pop_check_first f l) = if (q.head == f) && (q.tail == l) then b + 8 else b + 26
steps_left b q (pop_check_last f l) = if (q.head == f) && (q.tail == l) then b + 7 else b + 25
steps_left b q (pop_next f l) = if (q.head == f) && (q.tail == l) then b + 6 else b + 24
steps_left b q (pop_help l nx) = if q.tail == l then b + 5 else b + 23
steps_left b q (pop_value f nx) = if q.head == f then 4 else b + 23
steps_left b q (pop_swap f nx v) = if q.head == f then 3 else b + 22
steps_left b q (pop_retire f v) = 2
steps_left b q (pop_exit r) = 1
steps_left b q pop_retry = b + 12
steps_left b q aborted = 0

-- A step that moves neither the tail nor the last node.
same_lag :
    (G : Ghost) (q : Queue) {i : ℕ} {q' : Queue} {th' : Thread} (st : Stepped G q i q' th')
    → q'.tail ≡ q.tail
    → q'.history ≡ q.history
    → lag st.ghost ≡ lag G
same_lag G q st tail history = ap₂ ◌-◌ (st.advance.last_same history) (st.advance.behind_same tail)

module _ {G : Ghost} {q : Queue} {i : ℕ} {th : Thread} (m : Memory G q) (l : Local G q i th) where
  module _ (inn : inside th.pc ≡ true) (last next k : ℕ) (a : Linked G i last next k) {th' : Thread}
      (st : Stepped G q i (swing true last next q) th') where
    -- The tail moves on.
    swing_hit : q.tail ≡ last → suc (lag st.ghost) ≤ lag G
    unfolding swing
    swing_hit e =
        let hit : (q.tail == last) ≡ true = (==_iff q.tail last).1 e in
        let now : swing true last next q ≡ record q { tail = next } = if_true _ _ _ hit in
        let apart : next ≢ q.tail = λ same.
          let there =
            subst (λ x. G.role (get_ptr x) ≡ node (suc k)) (same ∙ e) (held_node m l inn a.1) in
          let again = node_injective (sym (held_node m l inn a.0) ∙ there) in
          absurd (omega arith) in
        let number : k ≡ G.behind =
          same_number m l (l.held k inn a.0.1 a.0.2)
            (m.linked G.behind m.front_behind m.behind_last)
            (ap get_ptr (sym a.0.0 ∙ sym e ∙ m.tail_at)) in
        let moved =
          st.advance.behind_next (λ same. apart (sym (ap (λ (p : Queue). p.tail) now) ∙ same)) in
        let kept = st.advance.last_same (ap (λ (p : Queue). p.history) now) in
        omega (arith, a.1.2, moved, kept, number)

    -- The word for the tail was an old one.
    swing_miss : q.tail ≢ last → lag st.ghost ≡ lag G
    unfolding swing
    swing_miss n =
        let miss : (q.tail == last) ≡ false = ground arith in
        let now : swing true last next q ≡ q = if_false _ _ _ miss in
        same_lag G q st (ap (λ (p : Queue). p.tail) now) (ap (λ (p : Queue). p.history) now)

    -- A round that ends with the move of the tail costs less than it had.
    swing_left :
        (x y z : ℕ)
        → x < y + 16
        → x < z
        → 16 * lag st.ghost + x < (if q.tail == last then 16 * lag G + y else 16 * lag G + z)
    swing_left x y z lt lt' = elim (Bool-cases (q.tail == last)) [
      | inl e ↦ rw e (omega (arith, swing_hit ((==_iff q.tail last).0 e)))
      | inr e ↦ let n : q.tail ≢ last = ground arith in rw e (omega (arith, swing_miss n))
    ]

  link_left :
      (b : Bool) (n last v : ℕ)
      → (st : Stepped G q i (link b n last v q th).0 (link b n last v q th).1)
      → let (q', th') = link b n last v q th in
        steps_left (16 * lag st.ghost) q' th'.pc < (if b then 3 else 16 * lag G + 17)
  unfolding link
  link_left true n last v st = elim (Bool-cases (get_ptr last == get_ptr n)) [
    | inl e ↦ rw e (omega arith)
    | inr e ↦ rw e (omega arith)
  ]
  link_left false n last v st = omega (arith, same_lag G q st refl refl)

  unlink_left :
      (b : Bool) (first next v : ℕ)
      → (st : Stepped G q i (unlink b first next v q th).0 (unlink b first next v q th).1)
      → let (q', th') = unlink b first next v q th in
        steps_left (16 * lag st.ghost) q' th'.pc < (if b then 3 else 16 * lag G + 22)
  unfolding unlink
  unlink_left true first next v st = elim (Bool-cases (get_ptr first == get_ptr next)) [
    | inl e ↦ rw e (omega arith)
    | inr e ↦ rw e (omega arith)
  ]
  unlink_left false first next v st = omega (arith, same_lag G q st refl refl)

  retire_left :
      (o : Option ℕ) (first v b : ℕ)
      → let (q', th') = retire first o v q th in steps_left b q' th'.pc < 2
  unfolding retire
  retire_left none first v b = omega arith
  retire_left (some stamp) first v b = omega arith

  push_next_left :
      (n last v : ℕ)
      → steps_left (16 * lag G) q (push_branch n last (q.next (get_ptr last)) v)
        < steps_left (16 * lag G) q (push_next n last v)
  push_next_left n last v = elim (Bool-cases (get_ptr (q.next (get_ptr last)) == 0)) [
    | inl e ↦ rw (e, ==_refl (q.next (get_ptr last))) (ground arith)
    | inr e ↦ rw e (ground arith)
  ]

  pop_next_left :
      (first last : ℕ) {th' : Thread}
      → inside th.pc ≡ true
      → Fits G q i (pop_next first last)
      → let pc = pop_branch first last (q.next (get_ptr first)) in
        (st : Stepped G q i (record q { history = q.history ++ seen pc }) th')
        → steps_left (16 * lag st.ghost) q pc < steps_left (16 * lag G) q (pop_next first last)
  pop_next_left first last inn (k, n, a, c, front, order, behind) st =
      elim (Bool-cases (get_ptr (q.next (get_ptr first)) == 0)) [
        | inl z ↦ elim (Bool-cases (get_ptr first == get_ptr last)) [
          | inl e ↦ rw (e, z) (ground arith)
          | inr e ↦
              let ends = null_is_last m l inn a ((==_iff _ 0).0 z) in
              let ne : get_ptr first ≢ get_ptr last = different e in
              let other : k ≢ n = λ same.
                ne (ap get_ptr a.0 ∙ ap (λ j. get_ptr (G.log j)) same ∙ ap get_ptr (sym c.0)) in
              absurd (omega (arith, m.behind_last))
        ]
        | inr z ↦ elim (Bool-cases (get_ptr first == get_ptr last)) [
          | inl e ↦
              let plain : q.history ++ seen (pop_branch first last (q.next (get_ptr first)))
                  ≡ q.history =
                rw (e, z) (append-nil q.history) in
              rw (same_lag G q st refl plain, e, z) (ground arith)
          | inr e ↦
              let plain : q.history ++ seen (pop_branch first last (q.next (get_ptr first)))
                  ≡ q.history =
                rw (e, z) (append-nil q.history) in
              rw (same_lag G q st refl plain, e, z) (ground arith)
        ]
      ]
    where
      different : (get_ptr first == get_ptr last) ≡ false → get_ptr first ≢ get_ptr last
      different e = ground arith

  -- Every step of a thread alone leaves fewer steps, except for the one that waits for a node.
  pub fewer_left :
      (pc : Pc)
      → th.pc ≡ pc
      → pc ≢ idle
      → waits_for_node pc ≡ false
      → Fits G q i pc
      → let (q', th') = thread_at pc go q th in
        (st : Stepped G q i q' th')
        → steps_left (16 * lag st.ghost) q' th'.pc < steps_left (16 * lag G) q pc
  unfolding thread_at
  fewer_left idle at busy w f st = absurd (busy refl)
  fewer_left (push_get v) at busy w f st = cc
  fewer_left (push_value n v) at busy w f st = rw (same_lag G q st refl refl) (omega arith)
  fewer_left (push_clear n v) at busy w f st = rw (same_lag G q st refl refl) (omega arith)
  fewer_left (push_enter n v) at busy w f st = rw (same_lag G q st refl refl) (omega arith)
  fewer_left (push_tail n v) at busy w f st =
      rw (same_lag G q st refl refl, ==_refl q.tail) (omega arith)
  fewer_left (push_next n last v) at busy w f st =
      rw (same_lag G q st refl refl) (push_next_left n last v)
  fewer_left (push_link n last next v) at busy w f st =
      link_left (works go && (q.next (get_ptr last) == next)) n last v st
  fewer_left (push_help n last next v) at busy w (r, (k, a)) st =
      swing_left (ap inside at) last next k a st 11 7 17 (omega arith) (omega arith)
  fewer_left (push_swing n last) at busy w f st = omega arith
  fewer_left push_done at busy w f st = omega arith
  fewer_left (push_retry n v) at busy w f st = rw (same_lag G q st refl refl) (omega arith)
  fewer_left pop_enter at busy w f st = rw (same_lag G q st refl refl) (omega arith)
  fewer_left pop_head at busy w f st = rw (same_lag G q st refl refl, ==_refl q.head) (omega arith)
  fewer_left (pop_tail first) at busy w f st =
      rw (same_lag G q st refl refl, ==_refl q.tail) (ground arith)
  fewer_left (pop_check_first first last) at busy w f st =
      rw (same_lag G q st refl refl) (ground arith)
  fewer_left (pop_check_last first last) at busy w f st =
      rw (same_lag G q st refl refl) (ground arith)
  fewer_left (pop_next first last) at busy w f st = pop_next_left first last (ap inside at) f st
  fewer_left (pop_help last next) at busy w (k, a) st =
      swing_left (ap inside at) last next k a st 12 5 23 (omega arith) (omega arith)
  fewer_left (pop_value first next) at busy w f st = rw (same_lag G q st refl refl) (ground arith)
  fewer_left (pop_swap first next v) at busy w f st = unlink_left (q.head == first) first next v st
  fewer_left (pop_retire first v) at busy w f st =
      retire_left (q.retired (get_ptr first)) first v (16 * lag st.ghost)
  fewer_left (pop_exit r) at busy w f st = omega arith
  fewer_left pop_retry at busy w f st = rw (same_lag G q st refl refl) (omega arith)
  fewer_left aborted at busy w f st = absurd f
