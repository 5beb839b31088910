-- ===== src/EpochBasedReclamation/Runs.antt =====
-- The invariant holds in every run.
use rock_coro.Prelude.{
  ℕ, zero, suc, ◌≤◌, ◌<◌, ◌≡◌, ◌≢◌, refl, subst, inl, inr, Bool, true, false, List, [], ◌∷◌, ltb,
  arith, Bool-cases,
}
use rock_coro.EpochBasedReclamation.{
  max_threads, same, aborted, Call, Advance, idle, bump, load_current, load_count, scan, scan_swap,
  failed, Epochs, advance_swap, store_gc, next_round, advance_at, Event, act, register, maintain,
  act_step, register_step, epochs_step, new, run_events,
}
use rock_coro.EpochBasedReclamation.Local.{FitsAt}
use rock_coro.EpochBasedReclamation.Invariant.{AdvanceFits, Inv, new-Inv}
use rock_coro.EpochBasedReclamation.Acts.{act_step-Inv, register_step-Inv}
use rock_coro.EpochBasedReclamation.Advances.{advance_at-Inv}

-- Threads are not unregistered.
pub advance_at-count : (a : Advance) (s : Epochs) → (advance_at a s).count ≡ s.count
unfolding advance_at
advance_at-count idle s = go s.is_running
  where
    go : (b : Bool) → (next_round b s).count ≡ s.count
    go true = refl
    go false = refl
advance_at-count (bump min) s = refl
advance_at-count (load_current min) s = refl
advance_at-count (load_count min cur) s = refl
advance_at-count (scan min cur zero) s = go min
  where
    go : (m : ℕ) → (store_gc m s).count ≡ s.count
    go zero = refl
    go (suc n) = refl
advance_at-count (scan min cur (suc i)) s = refl
advance_at-count (scan_swap min cur i old) s = go (same (s.threads i).status old)
  where
    go : (b : Bool) → (advance_swap b min cur i s).count ≡ s.count
    go true = refl
    go false = refl
advance_at-count failed s = refl

pub act_step-count : (i : ℕ) (c : Call) (s : Epochs) → (act_step i c s).count ≡ s.count
unfolding act_step
act_step-count i c s = elim (Bool-cases (ltb i s.count)) [ inl e ↦ rw e refl | inr e ↦ rw e refl ]

pub epochs_step-count : (e : Event) (s : Epochs) → s.count ≤ (epochs_step e s).count
unfolding epochs_step register_step
epochs_step-count (act i c) s = omega (arith, act_step-count i c s)
epochs_step-count register s = omega arith
epochs_step-count maintain s = omega (arith, advance_at-count s.maintainer s)

pub run_events-count : (es : List Event) (s : Epochs) → s.count ≤ (run_events es s).count
unfolding run_events
run_events-count [] s = omega arith
run_events-count (e ∷ es) s =
    omega (arith, epochs_step-count e s, run_events-count es (epochs_step e s))

pub epochs_step-Inv :
    (e : Event) (s : Epochs) → (epochs_step e s).count ≤ max_threads → Inv s → Inv (epochs_step e s)
unfolding epochs_step register_step
epochs_step-Inv (act i c) s few v = act_step-Inv i c s v
epochs_step-Inv register s few v = register_step-Inv s (omega (arith, few)) v
epochs_step-Inv maintain s few v = advance_at-Inv s.maintainer s v.advance v

pub run_events-Inv :
    (es : List Event) (s : Epochs)
    → (run_events es s).count ≤ max_threads
    → Inv s
    → Inv (run_events es s)
unfolding run_events
run_events-Inv [] s few v = v
run_events-Inv (e ∷ es) s few v =
    run_events-Inv es (epochs_step e s) few
      (epochs_step-Inv e s (omega (arith, few, run_events-count es (epochs_step e s))) v)

-- After any interleaving of threads and maintainer in which at most 1024 threads register, the
-- epoch of every active thread is above the gc epoch and not above the global epoch.
pub epochs_are_protected :
    (es : List Event) (i : ℕ)
    → (run_events es new).count ≤ max_threads
    → ((run_events es new).threads i).status.active ≡ true
    → ((run_events es new).gc_epoch < ((run_events es new).threads i).status.epoch)
      × (((run_events es new).threads i).status.epoch ≤ (run_events es new).global_epoch)
epochs_are_protected es i few a =
    let v = run_events-Inv es new few new-Inv in ((v.late i).0 a, (v.fits i).0)

-- After any interleaving of threads and maintainer in which at most 1024 threads register, and
-- each thread retires and exits only between enter and exit, no assert of a thread has failed and
-- neither has that of advance_epoch.
pub no_assert_fails :
    (es : List Event) (i : ℕ)
    → (run_events es new).count ≤ max_threads
    → (((run_events es new).threads i).pc ≢ aborted) × ((run_events es new).maintainer ≢ failed)
no_assert_fails es i few =
    let s = run_events es new in
    let v : Inv s = run_events-Inv es new few new-Inv in
    (
      λ e. subst (λ pc. FitsAt s.global_epoch s.gc_epoch pc (s.threads i)) e (v.fits i).1,
      λ e. subst (λ a. AdvanceFits a s) e v.advance,
    )
