-- ===== src/EpochBasedReclamation/Safety.antt =====
-- No node is released while a thread is in an epoch in which it could have seen the node.
use rock_coro.Prelude.{
  ℕ, ◌≤◌, ◌≡◌, refl, ap, sym, subst, ◌⊎◌, inl, inr, true, List, [], ◌∷◌, ◌++◌, ltb, arith, In,
  In-append, if◌then◌else◌, Bool-cases,
}
use rock_coro.EpochBasedReclamation.{
  max_threads, Status, RetireRecord, entering, aborted, Thread, Call, thread_at, Advance, Epochs,
  set_thread, advance_at, Event, act, register, maintain, act_step, register_step, epochs_step, new,
  run_events,
}
use rock_coro.EpochBasedReclamation.Invariant.{Inv, new-Inv, set_thread-all}
use rock_coro.EpochBasedReclamation.Effects.{Effects, stamped, thread_at_lem}
use rock_coro.EpochBasedReclamation.Runs.{run_events-count, epochs_step-Inv, run_events-Inv}
use rock_coro.EpochBasedReclamation.Advanced.{advance_at-Advanced}

-- Since `s`, the thread `h` has been in its epoch. What was retired since has an epoch that is not
-- below the global epoch of then, and what was released since was already retired then.
record Since (s : Epochs) (h : ℕ) (u : Epochs) : Type 0 where
  later : s.global_epoch ≤ u.global_epoch
  within : (u.threads h).status.epoch ≤ s.global_epoch
  listed :
      (i : ℕ) (r : RetireRecord)
      → In r (u.threads i).retire_list
      → In r (s.threads i).retire_list ⊎ (s.global_epoch ≤ r.retire_epoch)
  logged :
      (r : RetireRecord)
      → In r u.released
      → In r s.released ⊎ ((i : ℕ) × In r (s.threads i).retire_list)

-- The thread `h` is in its epoch before each event and after the last one.
abbrev pub Stays : ℕ → List Event → Epochs → Type 0
Stays h [] s = (s.threads h).status.active ≡ true
Stays h (e ∷ es) s = ((s.threads h).status.active ≡ true) × Stays h es (epochs_step e s)

module _ (s : Epochs) (h : ℕ) (u : Epochs) (now : Since s h u) where
  maintain-Since :
      (a : Advance) → ((advance_at a u).threads h).status.active ≡ true → Since s h (advance_at a u)
  maintain-Since a after = record {
    later = omega (arith, now.later, (advance_at-Advanced a u h).global_up);
    within = omega (arith, now.within, (advance_at-Advanced a u h).same_epoch after);
    listed = λ i r m. now.listed i r (rw (← (advance_at-Advanced a u i).same_list) m);
    logged = λ r m. now.logged r (rw (← (advance_at-Advanced a u h).same_log) m);
  }

  within_at : (j : ℕ) → j ≡ h → (u.threads j).status.epoch ≤ s.global_epoch
  within_at j e = subst (λ k. (u.threads k).status.epoch ≤ s.global_epoch) (sym e) now.within

  joined : Thread
  joined = record (u.threads u.count) { pc = if ltb u.count max_threads then entering else aborted }

  register-Since : Since s h (register_step u)
  unfolding register_step joined
  register-Since = record {
    later = now.later;
    within =
        set_thread-all (λ j t. j ≡ h → t.status.epoch ≤ s.global_epoch) u.threads u.count joined
          (λ e. within_at u.count e) within_at h refl;
    listed =
        set_thread-all
          (λ j t.
            (r : RetireRecord)
            → In r t.retire_list
            → In r (s.threads j).retire_list ⊎ (s.global_epoch ≤ r.retire_epoch))
          u.threads u.count joined (now.listed u.count) now.listed;
    logged = now.logged;
  }

  -- After a step of thread `i`, which releases `rs`.
  stepped-Since :
      (i : ℕ) (stamps : List RetireRecord) (t' : Thread) (rs : List RetireRecord)
      → Inv u
      → (u.threads h).status.active ≡ true
      → Effects u.global_epoch u.gc_epoch stamps (u.threads i) t' rs
      → (set_thread u.threads i t' h).status.active ≡ true
      → Since s h (record u { threads = set_thread u.threads i t'; released = u.released ++ rs })
  stepped-Since i stamps t' rs v before (grown, gone, same_status, kept) after = record {
    later = now.later;
    within =
        set_thread-all (λ j t. j ≡ h → t.status.active ≡ true → t.status.epoch ≤ s.global_epoch)
          u.threads i t'
          (λ e a. omega (
            arith,
            within_at i e,
            ap (λ (o : Status). o.epoch)
                (same_status (subst (λ k. (u.threads k).status.active ≡ true) (sym e) before) a),
          ))
          (λ j e a. within_at j e) h refl after;
    listed =
        set_thread-all
          (λ j t.
            (r : RetireRecord)
            → In r t.retire_list
            → In r (s.threads j).retire_list ⊎ (s.global_epoch ≤ r.retire_epoch))
          u.threads i t'
          (λ r m. elim (grown r m) [
            | inl k ↦ now.listed i r k
            | inr k ↦ inr (omega (arith, now.later, k))
          ])
          now.listed;
    logged = λ r m. elim (In-append r u.released rs m) [
      | inl k ↦ now.logged r k
      | inr k ↦ elim (now.listed i r (gone r k).0) [
        | inl l ↦ inr (i, l)
        | inr l ↦ absurd (omega (arith, l, (gone r k).1, now.within, (v.late h).0 before))
      ]
    ];
  }

  act-Since :
      (i : ℕ) (c : Call)
      → Inv u
      → (u.threads h).status.active ≡ true
      → ((act_step i c u).threads h).status.active ≡ true
      → Since s h (act_step i c u)
  unfolding act_step
  act-Since i c v before after =
      let t = u.threads i in
      let (t', rs) = thread_at t.pc c u.global_epoch u.gc_epoch t in
      let eff = thread_at_lem u.global_epoch u.gc_epoch t t.pc c (v.fits i).1 in
      elim (Bool-cases (ltb i u.count)) [
        | inl e ↦
            rw e (stepped-Since i (stamped u.global_epoch t.pc) t' rs v before eff (rw e at after))
        | inr e ↦ rw e now
      ]

  step-Since :
      (e : Event)
      → Inv u
      → (u.threads h).status.active ≡ true
      → ((epochs_step e u).threads h).status.active ≡ true
      → Since s h (epochs_step e u)
  unfolding epochs_step
  step-Since (act i c) v before after = act-Since i c v before after
  step-Since register v before after = register-Since
  step-Since maintain v before after = maintain-Since u.maintainer after

Stays-first :
    (h : ℕ) (es : List Event) (u : Epochs) → Stays h es u → (u.threads h).status.active ≡ true
Stays-first h [] u st = st
Stays-first h (e ∷ es) u st = st.0

run-Since :
    (s : Epochs) (h : ℕ) (es : List Event) (u : Epochs)
    → (run_events es u).count ≤ max_threads
    → Inv u
    → Stays h es u
    → Since s h u
    → Since s h (run_events es u)
unfolding run_events
run-Since s h [] u few v st now = now
run-Since s h (e ∷ es) u few v st now =
    let u' = epochs_step e u in
    run-Since s h es u' few (epochs_step-Inv e u (omega (arith, few, run_events-count es u')) v)
      st.1 (step-Since s h u now e v st.0 (Stays-first h es u' st.1))

-- After any interleaving of threads and maintainer in which at most 1024 threads register, and
-- while a thread then stays in its epoch through any further events, every record that is released
-- by the end had been released before that stretch began or was in a retire list when it began:
-- nothing that is retired during the stretch is released in it.
pub no_early_release :
    (before after : List Event) (h : ℕ) (r : RetireRecord)
    → (run_events after (run_events before new)).count ≤ max_threads
    → Stays h after (run_events before new)
    → In r (run_events after (run_events before new)).released
    → In r (run_events before new).released
      ⊎ ((i : ℕ) × In r ((run_events before new).threads i).retire_list)
no_early_release before after h r few st m =
    let s = run_events before new in
    let v : Inv s =
      run_events-Inv before new (omega (arith, few, run_events-count after s)) new-Inv in
    let start : Since s h s = record {
      later = omega arith;
      within = (v.fits h).0;
      listed = λ i q k. inl k;
      logged = λ q k. inl k;
    } in
    (run-Since s h after s few v st start).logged r m
