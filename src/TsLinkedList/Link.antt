-- ===== src/TsLinkedList/Link.antt =====
-- The step of push_back that links its node behind the last one.
use rock_coro.Prelude.{
  length, length-append, ℕ, suc, ◌≤◌, ◌<◌, ◌≡◌, ◌≢◌, refl, ◌∙◌, sym, subst, ap, ap₂, inl, inr, Bool,
  true, false, none, some, [], ◌∷◌, ◌++◌, arith, ◌==◌, ==_iff, ==_refl, Bool-cases, if_true,
  if_false, leb, leb→le,
}
use rock_coro.NodeAllocator.{set}
use rock_coro.TsLinkedList.{
  Queue, Thread, inside, push_retry, push_swing, pick, aborted, link, pushed,
}
use rock_coro.TsLinkedList.System.{replay}
use rock_coro.TsLinkedList.Ghost.{Role, free, owned, node, Ghost, At, Ready, Stored, Memory, Local}
use rock_coro.TsLinkedList.Later.{Later}
use rock_coro.TsLinkedList.Keep.{
  set_self, set_ne, roles_apart, node_injective, Stepped, stay, stored_mine,
}
use rock_coro.TsLinkedList.Ends.{held_node, null_is_last}
use rock_coro.TsLinkedList.History.{replay-append, vals_after-snoc, vals_after-same}
use rock_coro.TaggedPtr.{get_ptr}

module _ {G : Ghost} {q : Queue} {i : ℕ} {th : Thread} (m : Memory G q) (l : Local G q i th)
    (inn : inside th.pc ≡ true) (w last v : ℕ) where
  abbrev grown : Ghost
  grown = record G {
    log = set G.log (suc G.last) w;
    vals = set G.vals (suc G.last) v;
    last = suc G.last;
    role = set G.role (get_ptr w) (node (suc G.last));
  }

  abbrev linked_queue : Queue
  linked_queue = record q {
    next = set q.next (get_ptr last) w;
    history = q.history ++ (pushed v ∷ []);
  }

  module _ (r : Ready G q i w v) (at : At G i last G.last) where
    kept : (a : ℕ) {x : Role} → G.role a ≡ x → x ≢ owned i → grown.role a ≡ x
    kept a e n = set_ne G.role (get_ptr w) (node (suc G.last)) (roles_apart G.role e r.0 n) ∙ e

    same_log : (k : ℕ) → k ≤ G.last → grown.log k ≡ G.log k
    same_log k le = set_ne G.log (suc G.last) w (omega arith)

    same_vals : (k : ℕ) → k ≤ G.last → grown.vals k ≡ G.vals k
    same_vals k le = set_ne G.vals (suc G.last) v (omega arith)

    old_node :
        (k : ℕ)
        → k ≤ G.last
        → G.role (get_ptr (G.log k)) ≡ node k
        → grown.role (get_ptr (grown.log k)) ≡ node k
    old_node k le e =
        subst (λ x. grown.role (get_ptr x) ≡ node k) (sym (same_log k le)) (kept _ e (λ e. cc))

    new_node : (k : ℕ) → k ≡ suc G.last → grown.role (get_ptr (grown.log k)) ≡ node k
    new_node k e =
        rw e (rw (set_self G.log (suc G.last) w) (set_self G.role (get_ptr w) (node (suc G.last))))

    any_node :
        (k : ℕ)
        → k ≤ suc G.last
        → (k ≤ G.last → G.role (get_ptr (G.log k)) ≡ node k)
        → grown.role (get_ptr (grown.log k)) ≡ node k
    any_node k le old = elim (Bool-cases (leb k G.last)) [
      | inl e ↦ let le' = leb→le _ _ e in old_node k le' (old le')
      | inr e ↦ new_node k (ground arith)
    ]

    last_role : G.role (get_ptr last) ≡ node G.last
    last_role = held_node m l inn at

    -- The other addresses.
    other_Stored :
        (a : ℕ) (x : Role) → G.role a ≡ x → Stored G q a x → Stored grown linked_queue a x
    other_Stored a free e s = s
    other_Stored a (owned t) e s = s
    other_Stored a (node k) e (nz, live, fresh, here, le, is, mid, end, old) = (
      nz,
      live,
      fresh,
      here ∙ ap get_ptr (sym (same_log k le)),
      omega arith,
      is ∙ sym (same_vals k le),
      λ lt. elim (Bool-cases (k == G.last)) [
        | inl eq ↦
            let ends : k ≡ G.last = ground arith in
            let same : a ≡ get_ptr last =
              here ∙ ap (λ n. get_ptr (G.log n)) ends ∙ ap get_ptr (sym at.0) in
            if_true (a == get_ptr last) w (q.next a) (rw same (==_refl (get_ptr last)))
            ∙ sym (ap grown.log (ap suc ends) ∙ set_self G.log (suc G.last) w)
        | inr ne ↦
            let below : k < G.last = ground arith in
            set_ne q.next (get_ptr last) w
              (roles_apart G.role e last_role (λ c. absurd (omega (arith, node_injective c))))
            ∙ mid below
            ∙ sym (same_log (suc k) below)
      ],
      λ eq. absurd (omega arith),
      old,
    )

    linked-Stored : (a : ℕ) → Stored grown linked_queue a (grown.role a)
    linked-Stored a = elim (Bool-cases (a == get_ptr w)) [
      | inl e ↦
          let same : a ≡ get_ptr w = ground arith in
          let (nz, live, fresh, none_yet) = stored_mine m l (ap G.role same ∙ r.0) in
          let mine : G.role a ≡ owned i = ap G.role same ∙ r.0 in
          subst (Stored grown linked_queue a)
            (sym (if_true (a == get_ptr w) (node (suc G.last)) (G.role a) e))
            (
              nz,
              live,
              fresh,
              same ∙ ap get_ptr (sym (set_self G.log (suc G.last) w)),
              omega arith,
              ap q.value same ∙ r.1 ∙ sym (set_self G.vals (suc G.last) v),
              λ lt. absurd (omega arith),
              λ eq.
                  set_ne q.next (get_ptr last) w (roles_apart G.role mine last_role (λ e. cc))
                  ∙ ap q.next same
                  ∙ r.2,
              λ some_time. absurd (some_time none_yet),
            )
      | inr e ↦
          subst (Stored grown linked_queue a)
            (sym (if_false (a == get_ptr w) (node (suc G.last)) (G.role a) e))
            (other_Stored a (G.role a) refl (m.stored a))
    ]

    linked-Memory : Memory grown linked_queue
    unfolding replay
    linked-Memory = record {
      head_at = m.head_at ∙ sym (same_log G.front (omega (arith, m.front_behind, m.behind_last)));
      tail_at = m.tail_at ∙ sym (same_log G.behind m.behind_last);
      front_behind = m.front_behind;
      behind_last = omega (arith, m.behind_last);
      linked = λ k from to. any_node k to (m.linked k from);
      stored = linked-Stored;
      replayed =
          let (n, sum, replayed) = m.replayed in
          (
            suc n,
            omega arith,
            replay-append q.history (pushed v ∷ []) [] replayed
                ∙ ap some (
                    sym (
                      vals_after-snoc grown.vals G.front n
                      ∙ ap₂ (λ xs x. xs ++ (x ∷ []))
                          (vals_after-same G.vals grown.vals G.front n
                            (λ k le. same_vals k (omega arith)))
                          (ap (λ k. grown.vals (suc k)) sum ∙ set_self G.vals (suc G.last) v))),
          );
    }

    linked-Later : (t : ℕ) (b : Bool) → t ≢ i → Later G q grown linked_queue t b
    linked-Later t b n = record {
      log_same = same_log;
      vals_same = same_vals;
      front_up = omega arith;
      behind_up = omega arith;
      last_up = omega arith;
      clock_up = omega arith;
      since_same = refl;
      popper_same = λ k h. refl;
      mine_same = λ a h. (
        kept a h (λ e. n (owned_injective e)),
        refl,
        set_ne q.next (get_ptr last) w (roles_apart G.role h last_role (λ e. cc)),
      );
      unretired = λ k p h r. r;
      node_same = λ k p from to h. kept _ h (λ e. cc);
      node_new = λ k lt to.
          let same : k ≡ suc G.last = omega arith in
          (
            new_node k same,
            subst (λ x. q.retired (get_ptr x) ≡ none)
                (sym (ap grown.log same ∙ set_self G.log (suc G.last) w)) (stored_mine m l r.0).3,
          );
      stamp_old = λ a stamp h. inl h;
    }
      where
        owned_injective : {t u : ℕ} → owned t ≡ owned u → t ≡ u
        owned_injective e = cc

    linked-Local :
        Local grown linked_queue i
          (record th { pc = pick (get_ptr last == get_ptr w) aborted (push_swing w last) })
    linked-Local = rw apart (record {
      entered_by = l.entered_by;
      since_by = λ p. l.since_by inn;
      held = λ k p from to. any_node k to (l.held k inn from);
      stamped = λ k stamp p from to s. elim (Bool-cases (leb k G.last)) [
        | inl e ↦
            let le = leb→le _ _ e in
            l.stamped k stamp inn from le
              (subst (λ x. q.retired (get_ptr x) ≡ some stamp) (same_log k le) s)
        | inr e ↦
            let same : k ≡ suc G.last = ground arith in
            let fresh : q.retired (get_ptr (grown.log k)) ≡ none =
              subst (λ x. q.retired (get_ptr x) ≡ none)
                (sym (ap grown.log same ∙ set_self G.log (suc G.last) w)) (stored_mine m l r.0).3 in
            cc
      ];
      fits = (
        G.last,
        (
          (at.0 ∙ sym (same_log G.last (omega arith)), at.1, omega arith),
          (sym (set_self G.log (suc G.last) w), omega (arith, at.1), omega arith),
        ),
      );
    })
      where
        apart : (get_ptr last == get_ptr w) ≡ false
        apart =
            let ne = roles_apart G.role last_role r.0 (λ e. cc) in
            elim (Bool-cases (get_ptr last == get_ptr w)) [
              | inl e ↦ absurd (ne ((==_iff _ _).0 e))
              | inr e ↦ e
            ]

  -- The compare-exchange of next_, whether it succeeds or not.
  pub link-Stepped :
      (b : Bool) (next k : ℕ)
      → (b ≡ true → q.next (get_ptr last) ≡ next)
      → Ready G q i w v
      → At G i last k
      → get_ptr next ≡ 0
      → let (q', th') = link b w last v q th in Stepped G q i q' th'
  unfolding link
  link-Stepped true next k same r a null =
      let end : At G i last G.last =
        subst (At G i last) (null_is_last m l inn a (ap get_ptr (same refl) ∙ null)) a in
      record {
        ghost = grown;
        advance = record {
          behind_same = λ e. refl;
          behind_next = λ n. absurd (n refl);
          last_same = λ h.
              absurd
                (omega (arith, ap (length {0}) h, length-append {0} q.history (pushed v ∷ [])));
        };
        memory = linked-Memory r end;
        local = linked-Local r end;
        later = linked-Later r end;
      }
  link-Stepped false next k same r a null = stay m l (push_retry w v) (λ p. inn) r
