-- ===== src/TsLinkedList/Later.antt =====
-- What a thread holds while the others take their steps.
use rock_coro.Prelude.{
  ℕ, suc, ◌≤◌, ◌<◌, ◌≡◌, refl, ◌∙◌, sym, subst, ◌⊎◌, inl, inr, Bool, true, none, some, arith, leb,
  leb→le, Bool-cases,
}
use rock_coro.TsLinkedList.{
  Pc, idle, push_value, push_clear, push_enter, push_tail, push_next, push_link, push_help,
  push_swing, push_retry, pop_tail, pop_check_first, pop_check_last, pop_next, pop_help, pop_value,
  pop_swap, pop_retire, aborted, Queue, Thread, inside,
}
use rock_coro.TsLinkedList.Ghost.{owned, node, Ghost, At, Linked, Ready, Fits, Local}
use rock_coro.TaggedPtr.{get_ptr}

-- What a step leaves to a thread `t` that did not take it; `b` says if it is inside an epoch.
pub record Later (G : Ghost) (q : Queue) (G' : Ghost) (q' : Queue) (t : ℕ) (b : Bool) : Type 0 where
  pub log_same : (k : ℕ) → k ≤ G.last → G'.log k ≡ G.log k
  pub vals_same : (k : ℕ) → k ≤ G.last → G'.vals k ≡ G.vals k
  pub front_up : G.front ≤ G'.front
  pub behind_up : G.behind ≤ G'.behind
  pub last_up : G.last ≤ G'.last
  pub clock_up : q.clock ≤ q'.clock
  pub since_same : G'.since t ≡ G.since t
  pub popper_same : (k : ℕ) → k < G.front → G'.popper k ≡ G.popper k
  pub mine_same :
      (a : ℕ)
      → G.role a ≡ owned t
      → (G'.role a ≡ owned t) × (q'.value a ≡ q.value a) × (q'.next a ≡ q.next a)
  pub unretired :
      (k : ℕ)
      → G.popper k ≡ t
      → G.role (get_ptr (G.log k)) ≡ node k
      → q.retired (get_ptr (G.log k)) ≡ none
      → q'.retired (get_ptr (G.log k)) ≡ none
  pub node_same :
      (k : ℕ)
      → b ≡ true
      → G.since t ≤ k
      → k ≤ G.last
      → G.role (get_ptr (G.log k)) ≡ node k
      → G'.role (get_ptr (G.log k)) ≡ node k
  pub node_new :
      (k : ℕ)
      → G.last < k
      → k ≤ G'.last
      → (G'.role (get_ptr (G'.log k)) ≡ node k) × (q'.retired (get_ptr (G'.log k)) ≡ none)
  pub stamp_old :
      (a stamp : ℕ) → q'.retired a ≡ some stamp → (q.retired a ≡ some stamp) ⊎ (q.clock ≤ stamp)

module _ {G : Ghost} {q : Queue} {G' : Ghost} {q' : Queue} {t : ℕ} {b : Bool}
    (e : Later G q G' q' t b) where
  At-Later : {w k : ℕ} → At G t w k → At G' t w k
  At-Later {k} (is, from, to) =
      (is ∙ sym (e.log_same k to), omega (arith, e.since_same), omega (arith, e.last_up))

  Linked-Later : {w nx k : ℕ} → Linked G t w nx k → Linked G' t w nx k
  Linked-Later (a, n) = (At-Later a, At-Later n)

  Ready-Later : (w v : ℕ) → Ready G q t w v → Ready G' q' t w v
  Ready-Later w v (mine, is, empty) =
      let (mine', same, unlinked) = e.mine_same (get_ptr w) mine in
      (mine', same ∙ is, unlinked ∙ empty)

  Fits-Later :
      (pc : Pc)
      → inside pc ≡ b
      → ((k : ℕ)
          → inside pc ≡ true
          → G.since t ≤ k
          → k ≤ G.last
          → G.role (get_ptr (G.log k)) ≡ node k)
      → Fits G q t pc
      → Fits G' q' t pc
  Fits-Later (push_value w v) i held f = (e.mine_same (get_ptr w) f).0
  Fits-Later (push_clear w v) i held (mine, is) =
      let (mine', same, unlinked) = e.mine_same (get_ptr w) mine in (mine', same ∙ is)
  Fits-Later (push_enter w v) i held f = Ready-Later w v f
  Fits-Later (push_tail w v) i held f = Ready-Later w v f
  Fits-Later (push_next w l v) i held (r, (k, a)) = (Ready-Later w v r, (k, At-Later a))
  Fits-Later (push_link w l nx v) i held (r, (k, a), z) = (Ready-Later w v r, (k, At-Later a), z)
  Fits-Later (push_help w l nx v) i held (r, (k, a)) = (Ready-Later w v r, (k, Linked-Later a))
  Fits-Later (push_swing w l) i held (k, a) = (k, Linked-Later a)
  Fits-Later (push_retry w v) i held f = Ready-Later w v f
  Fits-Later (pop_tail f) i held (k, a, h) = (k, At-Later a, omega (arith, e.front_up))
  Fits-Later (pop_check_first f l) i held (k, m, a, c, h, km, mb) =
      (k, m, At-Later a, At-Later c, omega (arith, e.front_up), km, omega (arith, e.behind_up))
  Fits-Later (pop_check_last f l) i held (k, m, a, c, h, km, mb) =
      (k, m, At-Later a, At-Later c, omega (arith, e.front_up), km, omega (arith, e.behind_up))
  Fits-Later (pop_next f l) i held (k, m, a, c, h, km, mb) =
      (k, m, At-Later a, At-Later c, omega (arith, e.front_up), km, omega (arith, e.behind_up))
  Fits-Later (pop_help l nx) i held (k, a) = (k, Linked-Later a)
  Fits-Later (pop_value f nx) i held (k, a, h) = (k, Linked-Later a, omega (arith, e.behind_up))
  Fits-Later (pop_swap f nx v) i held (k, a, h, is) =
      (k, Linked-Later a, omega (arith, e.behind_up), is ∙ sym (e.vals_same (suc k) a.1.2))
  Fits-Later (pop_retire f v) i held (k, a, h, mine, none_yet) =
      let none_yet' : q.retired (get_ptr (G.log k)) ≡ none =
        subst (λ w. q.retired (get_ptr w) ≡ none) a.0 none_yet in
      (
        k,
        At-Later a,
        omega (arith, e.front_up),
        e.popper_same k h ∙ mine,
        subst (λ w. q'.retired (get_ptr w) ≡ none) (sym a.0)
            (e.unretired k mine (held k refl a.1 a.2) none_yet'),
      )
  Fits-Later aborted i held f = f
  Fits-Later idle i held f = tt
  Fits-Later _ i held f = tt

  -- A thread keeps what it holds through a step of another.
  pub Local-Later : (th : Thread) → inside th.pc ≡ b → Local G q t th → Local G' q' t th
  Local-Later th i l = record {
    entered_by = omega (arith, l.entered_by, e.clock_up);
    since_by = λ p. omega (arith, l.since_by p, e.since_same, e.front_up);
    held = λ k p from to. elim (Bool-cases (leb k G.last)) [
      | inl old ↦ kept k p from (leb→le _ _ old)
      | inr new ↦ (e.node_new k (ground arith) to).0
    ];
    stamped = λ k stamp p from to r. elim (Bool-cases (leb k G.last)) [
      | inl old ↦ below k stamp p from (leb→le _ _ old) r
      | inr new ↦ cc ((e.node_new k (ground arith) to).1)
    ];
    fits = Fits-Later th.pc i l.held l.fits;
  }
    where
      kept :
          (k : ℕ)
          → inside th.pc ≡ true
          → G'.since t ≤ k
          → k ≤ G.last
          → G'.role (get_ptr (G'.log k)) ≡ node k
      kept k p from old =
          let from' : G.since t ≤ k = omega (arith, e.since_same) in
          subst (λ w. G'.role (get_ptr w) ≡ node k) (sym (e.log_same k old))
            (e.node_same k (sym i ∙ p) from' old (l.held k p from' old))

      below :
          (k stamp : ℕ)
          → inside th.pc ≡ true
          → G'.since t ≤ k
          → k ≤ G.last
          → q'.retired (get_ptr (G'.log k)) ≡ some stamp
          → th.entered ≤ stamp
      below k stamp p from old r =
          let from' : G.since t ≤ k = omega (arith, e.since_same) in
          let r' : q'.retired (get_ptr (G.log k)) ≡ some stamp =
            subst (λ w. q'.retired (get_ptr w) ≡ some stamp) (e.log_same k old) r in
          elim (e.stamp_old _ stamp r') [
            | inl before ↦ l.stamped k stamp p from' old before
            | inr now ↦ omega (arith, l.entered_by)
          ]
