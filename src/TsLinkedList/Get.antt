-- ===== src/TsLinkedList/Get.antt =====
-- The step in which push_back gets its node.
use rock_coro.Prelude.{
  ℕ, ◌^◌, ◌<◌, ◌≡◌, ◌≢◌, refl, ◌∙◌, sym, subst, ap, inl, inr, Bool, true, false, none, arith, ◌==◌,
  Bool-cases, if_true, if_false,
}
use rock_coro.NodeAllocator.{set}
use rock_coro.TsLinkedList.{Queue, Thread, push_value, get_node, take_node, can_get}
use rock_coro.TsLinkedList.Ghost.{Role, free, owned, node, Ghost, Stored, Memory, Local}
use rock_coro.TsLinkedList.Later.{}
use rock_coro.TsLinkedList.Keep.{
  set_self, set_ne, roles_apart, Stepped, no_advance, Stored-keep, rest,
}
use rock_coro.TaggedPtr.{get_ptr, increment_tag}
use rock_coro.TaggedPtr.Fields.{increment_keeps_pointer}

-- An address that is not live has no role.
pub dead-free :
    (G : Ghost) (q : Queue) (a : ℕ) (r : Role) → Stored G q a r → q.live a ≡ false → r ≡ free
dead-free G q a free s d = refl
dead-free G q a (owned t) s d = cc (s.1)
dead-free G q a (node k) s d = cc (s.1)

can_get_parts :
    (w : ℕ) (q : Queue)
    → can_get w q ≡ true
    → (q.live (get_ptr w) ≡ false) × (get_ptr w ≢ 0) × (w < 2 ^ 64)
can_get_parts w q h = ground arith

module _ {G : Ghost} {q : Queue} {i : ℕ} {th : Thread} (m : Memory G q) (l : Local G q i th)
    (w : ℕ) where
  abbrev got_ghost : Ghost
  got_ghost = record G { role = set G.role (get_ptr w) (owned i) }

  module _ (was : G.role (get_ptr w) ≡ free) where
    kept : (a : ℕ) {r : Role} → G.role a ≡ r → r ≢ free → got_ghost.role a ≡ r
    kept a e n = set_ne G.role (get_ptr w) (owned i) (roles_apart G.role e was n) ∙ e

    got-Stored : (a : ℕ) → get_ptr w ≢ 0 → Stored got_ghost (get_node w q) a (got_ghost.role a)
    unfolding get_node
    got-Stored a nz = elim (Bool-cases (a == get_ptr w)) [
      | inl e ↦
          let same : a ≡ get_ptr w = ground arith in
          let old : q.retired a ≡ none = subst (Stored G q a) (ap G.role same ∙ was) (m.stored a) in
          subst (Stored got_ghost (get_node w q) a)
            (sym (if_true (a == get_ptr w) (owned i) (G.role a) e))
            (λ z. nz (sym same ∙ z), if_true _ _ _ e, if_true _ _ _ e, old)
      | inr e ↦
          subst (Stored got_ghost (get_node w q) a)
            (sym (if_false (a == get_ptr w) (owned i) (G.role a) e))
            (Stored-keep G q got_ghost (get_node w q) a (G.role a) (λ k. refl) (λ k. refl) refl
              (omega arith) (if_false _ _ _ e) refl (if_false _ _ _ e) (if_false _ _ _ e) refl
              (m.stored a))
    ]

    got-Stepped :
        (v : ℕ)
        → get_ptr w ≢ 0
        → w < 2 ^ 64
        → Stepped G q i (get_node w q) (record th { pc = push_value (increment_tag w) v })
    unfolding get_node
    got-Stepped v nz lt = record {
      ghost = got_ghost;
      advance = no_advance G q got_ghost (get_node w q) refl refl refl;
      memory = record {
        head_at = m.head_at;
        tail_at = m.tail_at;
        front_behind = m.front_behind;
        behind_last = m.behind_last;
        linked = λ k from to. kept _ (m.linked k from to) (λ e. cc);
        stored = λ a. got-Stored a nz;
        replayed = m.replayed;
      };
      local = record {
        entered_by = l.entered_by;
        since_by = λ p. cc;
        held = λ k p from to. cc;
        stamped = λ k stamp p from to r. cc;
        fits =
            subst (λ a. got_ghost.role a ≡ owned i) (sym (increment_keeps_pointer w lt).0)
              (set_self G.role (get_ptr w) (owned i));
      };
      later = λ t b n. record {
        log_same = λ k h. refl;
        vals_same = λ k h. refl;
        front_up = omega arith;
        behind_up = omega arith;
        last_up = omega arith;
        clock_up = omega arith;
        since_same = refl;
        popper_same = λ k h. refl;
        mine_same = λ a h. (
          kept a h (λ e. cc),
          refl,
          set_ne q.next (get_ptr w) 0 (roles_apart G.role h was (λ e. cc)),
        );
        unretired = λ k p h r. r;
        node_same = λ k p from to h. kept _ h (λ e. cc);
        node_new = λ k lt to. absurd (omega arith);
        stamp_old = λ a stamp h. inl h;
      };
    }

  pub take_node-Stepped :
      (b : Bool) (v : ℕ)
      → can_get w q ≡ b
      → let (q', th') = take_node b w v q th in Stepped G q i q' th'
  unfolding take_node
  take_node-Stepped true v can =
      let (dead, nz, lt) = can_get_parts w q can in
      got-Stepped (dead-free G q (get_ptr w) (G.role (get_ptr w)) (m.stored (get_ptr w)) dead) v nz
        lt
  take_node-Stepped false v can = rest m l
