-- ===== src/EpochBasedReclamation/Invariant.antt =====
-- What holds in every state of the threads and the maintainer: the gc epoch stays below the epoch of
-- every thread in one, and no assert fails.
use rock_coro.Prelude.{
  ℕ, suc, ◌≤◌, ◌<◌, ◌≡◌, refl, subst, false, [], ◌==◌, ◌≢◌, arith, Bool-cases, ◌⊎◌, inl, inr,
}
use rock_coro.EpochBasedReclamation.{
  Status, Pc, outside, inside, aborted, entering, read_global, swap, retiring, stamping, exiting,
  leave, collect, release, Thread, Advance, idle, bump, load_current, load_count, scan, scan_swap,
  failed, Epochs, set_thread, new,
}
use rock_coro.EpochBasedReclamation.Local.{FitsAt, Fits, PendingLate, Late}

-- The maintainer's `min_epoch` is above the gc epoch, and the threads that it has scanned are in no
-- epoch below it.
abbrev pub AdvanceFits : Advance → Epochs → Type 0
AdvanceFits idle s = Unit {0}
AdvanceFits (bump min) s = min ≡ s.global_epoch
AdvanceFits (load_current min) s = (s.gc_epoch < min) × (min < s.global_epoch)
AdvanceFits (load_count min cur) s =
    (s.gc_epoch < min) × (min < s.global_epoch) × (cur ≡ s.global_epoch)
AdvanceFits (scan min cur n) s =
    (s.gc_epoch < min)
    × (min < s.global_epoch)
    × (cur ≡ s.global_epoch)
    × ((i : ℕ) → n ≤ i → Late min (s.threads i))
AdvanceFits (scan_swap min cur n old) s =
    (s.gc_epoch < min)
    × (min < s.global_epoch)
    × (cur ≡ s.global_epoch)
    × ((i : ℕ) → n < i → Late min (s.threads i))
    × (old.active ≡ false)
    × (((s.threads n).status.epoch ≡ old.epoch) ⊎ (s.gc_epoch < (s.threads n).status.epoch))
AdvanceFits failed s = ⊥

pub record Inv (s : Epochs) : Type 0 where
  pub gc_lt : s.gc_epoch < s.global_epoch
  pub fits : (i : ℕ) → Fits s.global_epoch s.gc_epoch (s.threads i)
  pub late : (i : ℕ) → Late (suc s.gc_epoch) (s.threads i)
  pub fresh :
      (i : ℕ) → s.count ≤ i → ((s.threads i).pc ≡ outside) × ((s.threads i).retire_list ≡ [])
  pub advance : AdvanceFits s.maintainer s

pub new-Inv : Inv new
unfolding new
new-Inv = record {
  gc_lt = omega arith;
  fits = λ i. (omega arith, refl);
  late = λ i. (λ a. cc, tt);
  fresh = λ i h. (refl, refl);
  advance = tt;
}

-- The shape allows both epochs to grow.
pub Fits-mono : (g g' gc gc' : ℕ) (t : Thread) → g ≤ g' → gc ≤ gc' → Fits g gc t → Fits g' gc' t
Fits-mono g g' gc gc' t p q f = (omega arith, go t.pc f.1)
  where
    go : (pc : Pc) → FitsAt g gc pc t → FitsAt g' gc' pc t
    go outside h = h
    go inside h = h
    go aborted h = h
    go entering h = h
    go (read_global old) h = (h.0, h.1, omega arith)
    go (swap old new) h = (h.0, h.1, h.2, omega arith, h.4)
    go (retiring x) h = h
    go (stamping x) h = h
    go exiting h = h
    go (leave old) h = h
    go collect h = h
    go (release cur) h = (h.0, omega arith)

pub set_thread-others :
    (P : ℕ → Thread → Type 0) (ts : ℕ → Thread) (i : ℕ) (t : Thread)
    → P i t
    → ((j : ℕ) → j ≢ i → P j (ts j))
    → (j : ℕ) → P j (set_thread ts i t j)
set_thread-others P ts i t h k j = elim (Bool-cases (j == i)) [
  | inl e ↦ let same_index : i ≡ j = ground arith in rw e (subst (λ n. P n t) same_index h)
  | inr e ↦ let apart : j ≢ i = ground arith in rw e (k j apart)
]

pub set_thread-all :
    (P : ℕ → Thread → Type 0) (ts : ℕ → Thread) (i : ℕ) (t : Thread)
    → P i t
    → ((j : ℕ) → P j (ts j))
    → (j : ℕ) → P j (set_thread ts i t j)
set_thread-all P ts i t h k = set_thread-others P ts i t h (λ j n. k j)

-- As above, where the thread stays what it is.
pub set_thread-reset :
    (P : ℕ → Thread → Type 0) (ts : ℕ → Thread) (i : ℕ)
    → P i (ts i)
    → ((j : ℕ) → j ≢ i → P j (ts j))
    → (j : ℕ) → P j (ts j)
set_thread-reset P ts i h k j = elim (Bool-cases (j == i)) [
  | inl e ↦ let same_index : i ≡ j = ground arith in subst (λ n. P n (ts n)) same_index h
  | inr e ↦ let apart : j ≢ i = ground arith in k j apart
]

-- Only a pending compare-exchange has to be looked at.
pub PendingLate-intro :
    (m : ℕ) (st : Status) (pc : Pc)
    → ((old new : Status) → pc ≡ swap old new → st ≡ old → m ≤ new.epoch)
    → PendingLate m st pc
PendingLate-intro m st (swap old new) h = λ e. h old new refl e
PendingLate-intro m st outside h = tt
PendingLate-intro m st inside h = tt
PendingLate-intro m st aborted h = tt
PendingLate-intro m st entering h = tt
PendingLate-intro m st (read_global old) h = tt
PendingLate-intro m st (retiring x) h = tt
PendingLate-intro m st (stamping x) h = tt
PendingLate-intro m st exiting h = tt
PendingLate-intro m st (leave old) h = tt
PendingLate-intro m st collect h = tt
PendingLate-intro m st (release cur) h = tt
