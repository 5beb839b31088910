-- ===== src/EpochBasedReclamation/Local.antt =====
-- What a thread's own steps keep, whatever the others do.
use rock_coro.Prelude.{
  ℕ, ◌≤◌, ◌≡◌, refl, ap, sym, subst, Bool, true, false, List, [], ◌∷◌, leb, arith, Bool-cases, ◌⊎◌,
  inl, inr,
}
use rock_coro.EpochBasedReclamation.{
  Status, same, RetireRecord, Pc, outside, inside, aborted, entering, read_global, swap, retiring,
  stamping, exiting, leave, collect, release, Thread, Call, go, enter, exit, fail, retire,
  enter_load, enter_swap, retire_check, exit_load, exit_swap, release_front, thread_at,
}

pub same_lem : (a b : Status) → same a b ≡ true → a ≡ b
same_lem a b h = ground arith

-- The status and the locals of a thread, where it stands, under the global epoch `g` and the gc
-- epoch `gc`. A thread never aborts.
abbrev pub FitsAt : ℕ → ℕ → Pc → Thread → Type 0
FitsAt g gc outside t = t.status.active ≡ false
FitsAt g gc entering t = t.status.active ≡ false
FitsAt g gc (read_global old) t = (t.status.active ≡ false) × (old.active ≡ false) × (old.epoch ≤ g)
FitsAt g gc (swap old new) t =
    (t.status.active ≡ false)
    × (old.active ≡ false)
    × (old.epoch ≤ new.epoch)
    × (new.epoch ≤ g)
    × (new.active ≡ true)
FitsAt g gc inside t = t.status.active ≡ true
FitsAt g gc (retiring p) t = t.status.active ≡ true
FitsAt g gc (stamping p) t = t.status.active ≡ true
FitsAt g gc exiting t = t.status.active ≡ true
FitsAt g gc (leave old) t = (t.status.active ≡ true) × (old ≡ t.status)
FitsAt g gc collect t = t.status.active ≡ false
FitsAt g gc (release cur) t = (t.status.active ≡ false) × (cur ≤ gc)
FitsAt g gc aborted t = ⊥

abbrev pub Fits : ℕ → ℕ → Thread → Type 0
Fits g gc t = (t.status.epoch ≤ g) × FitsAt g gc t.pc t

-- An epoch that a pending compare-exchange of `enter_epoch` would set, if it can succeed.
abbrev pub PendingLate : ℕ → Status → Pc → Type 0
PendingLate m st (swap old new) = st ≡ old → m ≤ new.epoch
PendingLate m st _ = Unit {0}

-- The thread is in no epoch below `m`, and about to enter none.
abbrev pub Late : ℕ → Thread → Type 0
Late m t = (t.status.active ≡ true → m ≤ t.status.epoch) × PendingLate m t.status t.pc

-- A thread that is not active and not in the compare-exchange is late for any epoch.
not_active :
    (m : ℕ) (t : Thread) → t.status.active ≡ false → t.status.active ≡ true → m ≤ t.status.epoch
not_active m t e f = cc

-- The shape and lateness after a step, where the epoch was `e` before it.
abbrev pub Kept : ℕ → ℕ → ℕ → ℕ → Thread → Type 0
Kept m g gc e t = Fits g gc t × Late m t × ((t.status.epoch ≡ e) ⊎ (m ≤ t.status.epoch))

enter_swap-Kept :
    (m g gc : ℕ) (b : Bool) (old new : Status) (t : Thread)
    → (b ≡ true → t.status ≡ old)
    → FitsAt g gc (swap old new) t
    → t.status.epoch ≤ g
    → (t.status ≡ old → m ≤ new.epoch)
    → Kept m g gc t.status.epoch (enter_swap b new t)
unfolding enter_swap
enter_swap-Kept m g gc true old new t e f le late =
    ((f.3, f.4), (λ a. late (e refl), tt), inr (late (e refl)))
enter_swap-Kept m g gc false old new t e f le late =
    ((le, (f.0, f.0, le)), (not_active m t f.0, tt), inl refl)

exit_swap-Kept :
    (m g gc : ℕ) (b : Bool) (old : Status) (t : Thread)
    → t.status.active ≡ true
    → old ≡ t.status
    → t.status.epoch ≤ g
    → (t.status.active ≡ true → m ≤ t.status.epoch)
    → Kept m g gc t.status.epoch (exit_swap b old t)
unfolding exit_swap
exit_swap-Kept m g gc true old t a e le late =
    ((rw e le, refl), (λ f. cc, tt), inl (ap (λ (o : Status). o.epoch) e))
exit_swap-Kept m g gc false old t a e le late = ((le, (a, refl)), (late, tt), inl refl)

enter_load-Kept :
    (m g gc : ℕ) (b : Bool) (t : Thread)
    → t.status.active ≡ false
    → t.status.active ≡ b
    → t.status.epoch ≤ g
    → Kept m g gc t.status.epoch (enter_load b t)
unfolding enter_load
enter_load-Kept m g gc true t a e le = cc
enter_load-Kept m g gc false t a e le = ((le, (a, a, le)), (not_active m t a, tt), inl refl)

exit_load-Kept :
    (m g gc : ℕ) (b : Bool) (t : Thread)
    → t.status.active ≡ true
    → t.status.active ≡ b
    → t.status.epoch ≤ g
    → (t.status.active ≡ true → m ≤ t.status.epoch)
    → Kept m g gc t.status.epoch (exit_load b t)
unfolding exit_load
exit_load-Kept m g gc true t a e le late = ((le, (a, refl)), (late, tt), inl refl)
exit_load-Kept m g gc false t a e le late = cc

retire_check-Kept :
    (m g gc : ℕ) (b : Bool) (p : ℕ) (t : Thread)
    → t.status.active ≡ true
    → t.status.active ≡ b
    → t.status.epoch ≤ g
    → (t.status.active ≡ true → m ≤ t.status.epoch)
    → Kept m g gc t.status.epoch (retire_check b p t)
unfolding retire_check
retire_check-Kept m g gc true p t a e le late = ((le, a), (late, tt), inl refl)
retire_check-Kept m g gc false p t a e le late = cc

release_front-Kept :
    (m g gc cur : ℕ) (rs : List RetireRecord) (t : Thread)
    → t.pc ≡ release cur
    → t.status.active ≡ false
    → cur ≤ gc
    → t.status.epoch ≤ g
    → Kept m g gc t.status.epoch (release_front cur rs t).0
unfolding release_front
release_front-Kept m g gc cur [] t e a c le = ((le, a), (not_active m t a, tt), inl refl)
release_front-Kept m g gc cur (r ∷ rs) t e a c le = elim (Bool-cases (leb r.retire_epoch cur)) [
  | inl y ↦ rw y (
    (le, subst (λ pc. FitsAt g gc pc (record t { retire_list = rs })) (sym e) (a, c)),
    (not_active m t a, subst (PendingLate m t.status) (sym e) tt),
    inl refl,
  )
  | inr n ↦ rw n ((le, a), (not_active m t a, tt), inl refl)
]

-- A thread's step keeps its shape, and it stays late for an epoch that is not in the future.
module _ (m g gc : ℕ) (t : Thread) (le : t.status.epoch ≤ g) (past : m ≤ g)
    (late : t.status.active ≡ true → m ≤ t.status.epoch) where
  still :
      (pc : Pc)
      → t.pc ≡ pc
      → FitsAt g gc pc t
      → PendingLate m t.status pc
      → Kept m g gc t.status.epoch t
  still pc e f q = (
    (le, subst (λ k. FitsAt g gc k t) (sym e) f),
    (late, subst (PendingLate m t.status) (sym e) q),
    inl refl,
  )

  pub step-Kept :
      (pc : Pc) (c : Call)
      → t.pc ≡ pc
      → FitsAt g gc pc t
      → PendingLate m t.status pc
      → Kept m g gc t.status.epoch (thread_at pc c g gc t).0
  unfolding thread_at
  step-Kept outside enter e f q = ((le, f), (late, tt), inl refl)
  step-Kept outside go e f q = still outside e f tt
  step-Kept outside exit e f q = still outside e f tt
  step-Kept outside fail e f q = still outside e f tt
  step-Kept outside (retire p) e f q = still outside e f tt
  step-Kept entering c e f q = enter_load-Kept m g gc t.status.active t f refl le
  step-Kept (read_global old) c e f q =
      ((le, (f.0, f.1, f.2, omega arith, refl)), (late, λ _. past), inl refl)
  step-Kept (swap old new) fail e f q = enter_swap-Kept m g gc false old new t (λ n. cc) f le q
  step-Kept (swap old new) go e f q =
      enter_swap-Kept m g gc (same t.status old) old new t (same_lem t.status old) f le q
  step-Kept (swap old new) enter e f q =
      enter_swap-Kept m g gc (same t.status old) old new t (same_lem t.status old) f le q
  step-Kept (swap old new) exit e f q =
      enter_swap-Kept m g gc (same t.status old) old new t (same_lem t.status old) f le q
  step-Kept (swap old new) (retire p) e f q =
      enter_swap-Kept m g gc (same t.status old) old new t (same_lem t.status old) f le q
  step-Kept inside (retire p) e f q = ((le, f), (late, tt), inl refl)
  step-Kept inside exit e f q = ((le, f), (late, tt), inl refl)
  step-Kept inside go e f q = still inside e f tt
  step-Kept inside enter e f q = still inside e f tt
  step-Kept inside fail e f q = still inside e f tt
  step-Kept (retiring p) c e f q = retire_check-Kept m g gc t.status.active p t f refl le late
  step-Kept (stamping p) c e f q = ((le, f), (late, tt), inl refl)
  step-Kept exiting c e f q = exit_load-Kept m g gc t.status.active t f refl le late
  step-Kept (leave old) fail e f q = exit_swap-Kept m g gc false old t f.0 f.1 le late
  step-Kept (leave old) go e f q = exit_swap-Kept m g gc (same t.status old) old t f.0 f.1 le late
  step-Kept (leave old) enter e f q =
      exit_swap-Kept m g gc (same t.status old) old t f.0 f.1 le late
  step-Kept (leave old) exit e f q = exit_swap-Kept m g gc (same t.status old) old t f.0 f.1 le late
  step-Kept (leave old) (retire p) e f q =
      exit_swap-Kept m g gc (same t.status old) old t f.0 f.1 le late
  step-Kept collect c e f q = ((le, (f, omega arith)), (late, tt), inl refl)
  step-Kept (release cur) c e f q = release_front-Kept m g gc cur t.retire_list t e f.0 f.1 le
  step-Kept aborted c e f q = absurd f
