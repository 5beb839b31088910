-- ===== src/TsLinkedList/Retire.antt =====
-- The step of pop_front that retires the old head.
use rock_coro.Prelude.{
  ℕ, ◌+◌, ◌≤◌, ◌<◌, ◌≡◌, ◌≢◌, refl, ◌∙◌, sym, subst, ap, ◌⊎◌, inl, inr, true, Option, none, some,
  arith, ◌==◌, ==_iff, Bool-cases, if_true, if_false,
}
use rock_coro.NodeAllocator.{set}
use rock_coro.TsLinkedList.{Queue, Thread, inside, pop_exit, retire}
use rock_coro.TsLinkedList.Ghost.{node, Ghost, At, Stored, Memory, Local}
use rock_coro.TsLinkedList.Later.{}
use rock_coro.TsLinkedList.Keep.{
  set_ne, roles_apart, node_injective, Stepped, no_advance, Stored-keep, same_ghost, stored_node,
}
use rock_coro.TsLinkedList.Ends.{held_node}
use rock_coro.TaggedPtr.{get_ptr}

module _ {G : Ghost} {q : Queue} {i : ℕ} {th : Thread} (m : Memory G q) (l : Local G q i th)
    (inn : inside th.pc ≡ true) (first k v : ℕ) (a : At G i first k) (gone : k < G.front)
    (mine : G.popper k ≡ i) where
  abbrev retired_queue : Queue
  retired_queue = record q {
    retired = set q.retired (get_ptr first) (some q.clock);
    clock = q.clock + 1;
  }

  first_role : G.role (get_ptr first) ≡ node k
  first_role = held_node m l inn a

  retired-Stored : (b : ℕ) → Stored G retired_queue b (G.role b)
  retired-Stored b = elim (Bool-cases (b == get_ptr first)) [
    | inl e ↦
        let here : G.role b ≡ node k = ap G.role ((==_iff b (get_ptr first)).0 e) ∙ first_role in
        let (nz, live, fresh, at, le, is, mid, end, old) = stored_node m l k here in
        subst (Stored G retired_queue b) (sym here)
          (nz, live, fresh, at, le, is, mid, end, λ s. gone)
    | inr e ↦
        Stored-keep G q G retired_queue b (G.role b) (λ k. refl) (λ k. refl) refl (omega arith) refl
          refl refl refl (if_false _ _ _ e) (m.stored b)
  ]

  stamp_old :
      (b stamp : ℕ)
      → retired_queue.retired b ≡ some stamp
      → (q.retired b ≡ some stamp) ⊎ (q.clock ≤ stamp)
  stamp_old b stamp h = elim (Bool-cases (b == get_ptr first)) [
    | inl e ↦
        let now : some q.clock ≡ some stamp = sym (if_true _ _ _ e) ∙ h in
        let same : q.clock ≡ stamp = cc in inr (omega arith)
    | inr e ↦ inl (sym (if_false _ _ _ e) ∙ h)
  ]

  retired-Stepped : Stepped G q i retired_queue (record th { pc = pop_exit (some v) })
  retired-Stepped = record {
    ghost = G;
    advance = no_advance G q G retired_queue refl refl refl;
    memory = record {
      head_at = m.head_at;
      tail_at = m.tail_at;
      front_behind = m.front_behind;
      behind_last = m.behind_last;
      linked = m.linked;
      stored = retired-Stored;
      replayed = m.replayed;
    };
    local = record {
      entered_by = omega (arith, l.entered_by);
      since_by = λ p. l.since_by inn;
      held = λ j p. l.held j inn;
      stamped = λ j stamp p from to s. elim (stamp_old _ stamp s) [
        | inl before ↦ l.stamped j stamp inn from to before
        | inr now ↦ omega (arith, l.entered_by)
      ];
      fits = tt;
    };
    later = λ t b n.
        same_ghost G q retired_queue t b (omega arith) (λ b h. (refl, refl))
          (λ j p h r.
            let apart : get_ptr (G.log j) ≢ get_ptr first =
              roles_apart G.role h first_role
                (λ e. n (sym p ∙ ap G.popper (node_injective e) ∙ mine)) in
            set_ne q.retired (get_ptr first) (some q.clock) apart ∙ r)
          stamp_old;
  }

  pub retire-Stepped :
      (o : Option ℕ)
      → q.retired (get_ptr first) ≡ o
      → q.retired (get_ptr first) ≡ none
      → let (q', th') = retire first o v q th in Stepped G q i q' th'
  unfolding retire
  retire-Stepped (some stamp) e none_yet = cc
  retire-Stepped none e none_yet = retired-Stepped
