-- ===== src/TsLinkedList/Steps.antt =====
-- Every step of a thread.
use rock_coro.Prelude.{
  ℕ, suc, ◌≡◌, ◌≢◌, refl, ◌∙◌, sym, subst, ap, inl, inr, true, false, none, [], ◌++◌, arith, ◌==◌,
  ◌&&◌, ==_iff, Bool-cases, append-nil,
}
use rock_coro.NodeAllocator.{set}
use rock_coro.TsLinkedList.{
  Pc, idle, push_get, push_value, push_clear, push_enter, push_tail, push_next, push_link,
  push_help, push_swing, push_done, push_retry, pop_enter, pop_head, pop_tail, pop_check_first,
  pop_check_last, pop_next, pop_help, pop_value, pop_swap, pop_retire, pop_exit, pop_retry, aborted,
  Queue, Thread, inside, Choice, pop, push, got, thread_at, enter, works, can_get, pick,
  push_branch, pop_branch, seen,
}
use rock_coro.TsLinkedList.Ghost.{Ghost, At, Fits, Memory, Local}
use rock_coro.TsLinkedList.Keep.{set_self, set_ne, Stepped, stay, rest, stored_node}
use rock_coro.TsLinkedList.Own.{enter-Stepped, store-Stepped}
use rock_coro.TsLinkedList.Get.{take_node-Stepped}
use rock_coro.TsLinkedList.Ends.{
  held_node, after, null_is_last, same_number, swing-Stepped, empty-Stepped,
}
use rock_coro.TsLinkedList.Link.{link-Stepped}
use rock_coro.TsLinkedList.Unlink.{unlink-Stepped}
use rock_coro.TsLinkedList.Retire.{retire-Stepped}
use rock_coro.TaggedPtr.{get_ptr}

module _ {G : Ghost} {q : Queue} {i : ℕ} {th : Thread} (m : Memory G q) (l : Local G q i th) where
  -- The store of the value.
  value_store :
      (w v : ℕ)
      → Fits G q i (push_value w v)
      → Stepped G q i
          (record q { value = set q.value (get_ptr w) v })
          (record th { pc = push_clear w v })
  value_store w v f =
      store-Stepped m l w f (record q { value = set q.value (get_ptr w) v })
        (λ a n. set_ne q.value (get_ptr w) v n) (λ a n. refl)
        (record {
          head = refl;
          tail = refl;
          live = λ a. refl;
          released = λ a. refl;
          retired = λ a. refl;
          clock = refl;
          history = refl;
        })
        (push_clear w v) refl (f, set_self q.value (get_ptr w) v)

  -- The store of a null next.
  next_store :
      (w v : ℕ)
      → Fits G q i (push_clear w v)
      → Stepped G q i
          (record q { next = set q.next (get_ptr w) 0 })
          (record th { pc = push_enter w v })
  next_store w v f =
      store-Stepped m l w f.0 (record q { next = set q.next (get_ptr w) 0 }) (λ a n. refl)
        (λ a n. set_ne q.next (get_ptr w) 0 n)
        (record {
          head = refl;
          tail = refl;
          live = λ a. refl;
          released = λ a. refl;
          retired = λ a. refl;
          clock = refl;
          history = refl;
        })
        (push_enter w v) refl (f.0, f.1, set_self q.next (get_ptr w) 0)

  module _ (inn : inside th.pc ≡ true) where
    push_next-Stepped :
        (w last v : ℕ)
        → Fits G q i (push_next w last v)
        → Stepped G q i q (record th { pc = push_branch w last (q.next (get_ptr last)) v })
    push_next-Stepped w last v (r, (k, a)) =
        elim (Bool-cases (get_ptr (q.next (get_ptr last)) == 0)) [
          | inl e ↦ rw e (
              stay m l (push_link w last (q.next (get_ptr last)) v) (λ p. inn)
                (r, (k, a), (==_iff _ 0).0 e))
          | inr e ↦
              let nz : get_ptr (q.next (get_ptr last)) ≢ 0 = ground arith in
              rw e (
                stay m l (push_help w last (q.next (get_ptr last)) v) (λ p. inn)
                  (r, (k, after m l inn a nz)))
        ]

    check-Stepped :
        (w k : ℕ) (pc : Pc)
        → At G i w k
        → Fits G q i pc
        → Stepped G q i q (record th { pc = pick (q.released (get_ptr w)) aborted pc })
    check-Stepped w k pc a f =
        rw (stored_node m l k (held_node m l inn a)).2 (stay m l pc (λ p. inn) f)

    -- A place to which a load leads when the queue is not empty.
    plain :
        (pc : Pc)
        → seen pc ≡ []
        → Fits G q i pc
        → Stepped G q i (record q { history = q.history ++ seen pc }) (record th { pc = pc })
    plain pc e f = rw (e, append-nil) (stay m l pc (λ p. inn) f)

    pop_next-Stepped :
        (first last : ℕ)
        → Fits G q i (pop_next first last)
        → let pc = pop_branch first last (q.next (get_ptr first)) in
          Stepped G q i (record q { history = q.history ++ seen pc }) (record th { pc = pc })
    pop_next-Stepped first last (k, n, a, c, front, order, behind) =
        elim (Bool-cases (get_ptr first == get_ptr last)) [
          | inl e ↦ elim (Bool-cases (get_ptr (q.next (get_ptr first)) == 0)) [
            | inl z ↦
                let ends = null_is_last m l inn a ((==_iff _ 0).0 z) in
                rw (e, z)
                  (empty-Stepped m l inn (pop_exit none)
                    (omega (arith, m.front_behind, m.behind_last)) (λ q'. tt))
            | inr z ↦
                let nz : get_ptr (q.next (get_ptr first)) ≢ 0 = ground arith in
                let b = after m l inn a nz in
                let same : k ≡ n =
                  same_number m l (l.held k inn a.1 a.2) (l.held n inn c.1 c.2)
                    (ap get_ptr (sym a.0) ∙ (==_iff _ _).0 e ∙ ap get_ptr c.0) in
                rw (e, z)
                  (plain (pop_help last (q.next (get_ptr first))) refl
                    (n, (c, subst (At G i (q.next (get_ptr first))) (ap suc same) b.1)))
          ]
          | inr e ↦ elim (Bool-cases (get_ptr (q.next (get_ptr first)) == 0)) [
            | inl z ↦ rw (e, z) (plain pop_retry refl tt)
            | inr z ↦
                let nz : get_ptr (q.next (get_ptr first)) ≢ 0 = ground arith in
                let other : k ≢ n = λ same.
                  (apart e)
                    (ap get_ptr a.0 ∙ ap (λ j. get_ptr (G.log j)) same ∙ ap get_ptr (sym c.0)) in
                rw (e, z)
                  (plain (pop_value first (q.next (get_ptr first))) refl
                    (k, after m l inn a nz, omega arith))
          ]
        ]
      where
        apart : (get_ptr first == get_ptr last) ≡ false → get_ptr first ≢ get_ptr last
        apart e = ground arith

  pub thread_at-Stepped :
      (pc : Pc) (c : Choice)
      → th.pc ≡ pc
      → Fits G q i pc
      → let (q', th') = thread_at pc c q th in Stepped G q i q' th'
  unfolding thread_at enter
  thread_at-Stepped idle (push v) at f = stay m l (push_get v) (λ p. cc) tt
  thread_at-Stepped idle pop at f = stay m l pop_enter (λ p. cc) tt
  thread_at-Stepped idle c at f = rest m l
  thread_at-Stepped (push_get v) (got w) at f = take_node-Stepped m l w (can_get w q) v refl
  thread_at-Stepped (push_get v) c at f = rest m l
  thread_at-Stepped (push_value w v) c at f = value_store w v f
  thread_at-Stepped (push_clear w v) c at f = next_store w v f
  thread_at-Stepped (push_enter w v) c at f = enter-Stepped m l (push_tail w v) f
  thread_at-Stepped (push_tail w v) c at f =
      let inn = ap inside at in
      stay m l (push_next w q.tail v) (λ p. inn)
        (f, (G.behind, (m.tail_at, omega (arith, l.since_by inn, m.front_behind), m.behind_last)))
  thread_at-Stepped (push_next w last v) c at f = push_next-Stepped (ap inside at) w last v f
  thread_at-Stepped (push_link w last next v) c at (r, (k, a), null) =
      link-Stepped m l (ap inside at) w last v (works c && (q.next (get_ptr last) == next)) next k
        (λ e. ground arith) r a null
  thread_at-Stepped (push_help w last next v) c at (r, (k, a)) =
      swing-Stepped m l (ap inside at) (works c) last next k (push_retry w v) a r r
  thread_at-Stepped (push_swing w last) c at (k, a) =
      swing-Stepped m l (ap inside at) (works c) last w k push_done a tt tt
  thread_at-Stepped push_done c at f = stay m l idle (λ p. cc) tt
  thread_at-Stepped (push_retry w v) c at f = stay m l (push_enter w v) (λ p. cc) f
  thread_at-Stepped pop_enter c at f = enter-Stepped m l pop_head tt
  thread_at-Stepped pop_head c at f =
      let inn = ap inside at in
      stay m l (pop_tail q.head) (λ p. inn)
        (
          G.front,
          (m.head_at, l.since_by inn, omega (arith, m.front_behind, m.behind_last)),
          omega arith,
        )
  thread_at-Stepped (pop_tail first) c at (k, a, le) =
      let inn = ap inside at in
      stay m l (pop_check_first first q.tail) (λ p. inn)
        (
          k,
          G.behind,
          a,
          (m.tail_at, omega (arith, l.since_by inn, m.front_behind), m.behind_last),
          le,
          omega (arith, m.front_behind),
          omega arith,
        )
  thread_at-Stepped (pop_check_first first last) c at f =
      check-Stepped (ap inside at) first f.0 (pop_check_last first last) f.2 f
  thread_at-Stepped (pop_check_last first last) c at f =
      check-Stepped (ap inside at) last f.1 (pop_next first last) f.3 f
  thread_at-Stepped (pop_next first last) c at f = pop_next-Stepped (ap inside at) first last f
  thread_at-Stepped (pop_help last next) c at (k, a) =
      swing-Stepped m l (ap inside at) (works c) last next k pop_retry a tt tt
  thread_at-Stepped (pop_value first next) c at (k, a, le) =
      let inn = ap inside at in
      let same = (stored_node m l (suc k) (held_node m l inn a.1)).5 in
      stay m l (pop_swap first next (q.value (get_ptr next))) (λ p. inn) (k, a, le, same)
  thread_at-Stepped (pop_swap first next v) c at (k, a, le, is) =
      unlink-Stepped m l (ap inside at) first next v (q.head == first) k
        (λ e. (==_iff q.head first).0 e) a le is
  thread_at-Stepped (pop_retire first v) c at (k, a, gone, mine, none_yet) =
      retire-Stepped m l (ap inside at) first k v a gone mine (q.retired (get_ptr first)) refl
        none_yet
  thread_at-Stepped (pop_exit r) c at f = stay m l idle (λ p. cc) tt
  thread_at-Stepped pop_retry c at f = stay m l pop_enter (λ p. cc) tt
  thread_at-Stepped aborted c at f = absurd f
