-- ===== src/EpochBasedReclamation/Effects.antt =====
-- What a thread's step does to its retire list, to the records released, and to an epoch it is in.
use rock_coro.Prelude.{
  ℕ, ◌≤◌, ◌≡◌, refl, ap, ◌⊎◌, inl, inr, Bool, true, false, List, [], ◌∷◌, ◌++◌, leb, arith, In,
  In-snoc, Bool-cases, ◌+◌, ◌==◌, ◌&&◌, if◌then◌else◌,
}
use rock_coro.EpochBasedReclamation.{
  Status, same, RetireRecord, Pc, outside, inside, aborted, entering, read_global, swap, retiring,
  stamping, exiting, leave, collect, release, Thread, Call, go, enter, exit, fail, retire,
  enter_load, enter_swap, retire_check, exit_load, exit_swap, release_front, thread_at,
}
use rock_coro.EpochBasedReclamation.Local.{FitsAt}

abbrev pub is_record : RetireRecord → RetireRecord → ℕ
is_record r q = if (r.ptr == q.ptr) && (r.retire_epoch == q.retire_epoch) then 1 else 0

abbrev pub count : RetireRecord → List RetireRecord → ℕ
count r [] = 0
count r (q ∷ qs) = is_record r q + count r qs

pub count-append :
    (r : RetireRecord) (xs ys : List RetireRecord) → count r (xs ++ ys) ≡ count r xs + count r ys
count-append r [] ys = omega arith
count-append r (x ∷ xs) ys = omega (arith, count-append r xs ys)

-- What a thread retires where it stands.
abbrev pub stamped : ℕ → Pc → List RetireRecord
stamped g (stamping p) = record { ptr = p; retire_epoch = g } ∷ []
stamped g _ = []

-- From `t` to `t'`, with `rs` released: a new record has the global epoch, a released one comes from
-- the list and has no epoch above the gc epoch, and an epoch does not change while the thread is in it.
-- No record is lost or doubled.
abbrev pub Effects : ℕ → ℕ → List RetireRecord → Thread → Thread → List RetireRecord → Type 0
Effects g gc stamps t t' rs =
    ((r : RetireRecord) → In r t'.retire_list → In r t.retire_list ⊎ (r.retire_epoch ≡ g))
    × ((r : RetireRecord) → In r rs → In r t.retire_list × (r.retire_epoch ≤ gc))
    × (t.status.active ≡ true → t'.status.active ≡ true → t'.status ≡ t.status)
    × ((r : RetireRecord)
        → count r t'.retire_list + count r rs ≡ count r t.retire_list + count r stamps)

module _ (g gc : ℕ) (t : Thread) where
  quiet :
      (t' : Thread)
      → t'.retire_list ≡ t.retire_list
      → t'.status ≡ t.status
      → Effects g gc [] t t' []
  quiet t' e f =
      (λ r m. inl (rw (← e) m), λ r m. absurd m, λ a b. f, λ r. ap (λ l. count r l + 0) e)

  enter_load_lem : (b : Bool) → Effects g gc [] t (enter_load b t) []
  unfolding enter_load
  enter_load_lem true = quiet (record t { pc = aborted }) refl refl
  enter_load_lem false = quiet (record t { pc = read_global t.status }) refl refl

  enter_swap_lem :
      (b : Bool) (new : Status)
      → t.status.active ≡ false
      → Effects g gc [] t (enter_swap b new t) []
  unfolding enter_swap
  enter_swap_lem true new off = (λ r m. inl m, λ r m. absurd m, λ a b. cc, λ r. refl)
  enter_swap_lem false new off = quiet (record t { pc = read_global t.status }) refl refl

  retire_check_lem : (b : Bool) (p : ℕ) → Effects g gc [] t (retire_check b p t) []
  unfolding retire_check
  retire_check_lem true p = quiet (record t { pc = stamping p }) refl refl
  retire_check_lem false p = quiet (record t { pc = aborted }) refl refl

  exit_load_lem : (b : Bool) → Effects g gc [] t (exit_load b t) []
  unfolding exit_load
  exit_load_lem true = quiet (record t { pc = leave t.status }) refl refl
  exit_load_lem false = quiet (record t { pc = aborted }) refl refl

  exit_swap_lem : (b : Bool) (old : Status) → Effects g gc [] t (exit_swap b old t) []
  unfolding exit_swap
  exit_swap_lem true old = (λ r m. inl m, λ r m. absurd m, λ a b. cc, λ r. refl)
  exit_swap_lem false old = quiet (record t { pc = leave t.status }) refl refl

  release_front_lem :
      (cur : ℕ) (rs : List RetireRecord)
      → t.retire_list ≡ rs
      → cur ≤ gc
      → Effects g gc [] t (release_front cur rs t).0 (release_front cur rs t).1
  unfolding release_front
  release_front_lem cur [] e h = quiet (record t { pc = outside }) refl refl
  release_front_lem cur (r ∷ rs) e h = elim (Bool-cases (leb r.retire_epoch cur)) [
    | inl y ↦ rw y (
      λ q m. inl (rw e (inr m)),
      λ q m. (
        rw e (elim m [ inl k ↦ inl k | inr k ↦ absurd k ]),
        elim m [
          | inl k ↦
              let low : r.retire_epoch ≤ cur = ground arith in
              omega (arith, ap (λ (o : RetireRecord). o.retire_epoch) k)
          | inr k ↦ absurd k
        ],
      ),
      λ a b. refl,
      λ q. omega (arith, ap (count q) e),
    )
    | inr n ↦ rw n (quiet (record t { pc = outside }) refl refl)
  ]

  stamp_lem :
      (p : ℕ)
      → Effects g gc
          (record { ptr = p; retire_epoch = g } ∷ [])
          t
          (record t {
            retire_list = t.retire_list ++ (record { ptr = p; retire_epoch = g } ∷ []);
            pc = inside;
          })
          []
  stamp_lem p = (
    λ r m. elim ((In-snoc r (record { ptr = p; retire_epoch = g }) t.retire_list).0 m) [
      | inl k ↦ inl k
      | inr k ↦ inr (ap (λ (o : RetireRecord). o.retire_epoch) k)
    ],
    λ r m. absurd m,
    λ a b. refl,
    λ r. omega (arith, count-append r t.retire_list (record { ptr = p; retire_epoch = g } ∷ [])),
  )

  pub thread_at_lem :
      (pc : Pc) (c : Call)
      → FitsAt g gc pc t
      → Effects g gc (stamped g pc) t (thread_at pc c g gc t).0 (thread_at pc c g gc t).1
  unfolding thread_at
  thread_at_lem outside enter f = quiet (record t { pc = entering }) refl refl
  thread_at_lem outside go f = quiet t refl refl
  thread_at_lem outside exit f = quiet t refl refl
  thread_at_lem outside fail f = quiet t refl refl
  thread_at_lem outside (retire p) f = quiet t refl refl
  thread_at_lem entering c f = enter_load_lem t.status.active
  thread_at_lem (read_global old) c f = (λ r m. inl m, λ r m. absurd m, λ a b. refl, λ r. refl)
  thread_at_lem (swap old new) fail f = enter_swap_lem false new f.0
  thread_at_lem (swap old new) go f = enter_swap_lem (same t.status old) new f.0
  thread_at_lem (swap old new) enter f = enter_swap_lem (same t.status old) new f.0
  thread_at_lem (swap old new) exit f = enter_swap_lem (same t.status old) new f.0
  thread_at_lem (swap old new) (retire p) f = enter_swap_lem (same t.status old) new f.0
  thread_at_lem inside (retire p) f = quiet (record t { pc = retiring p }) refl refl
  thread_at_lem inside exit f = quiet (record t { pc = exiting }) refl refl
  thread_at_lem inside go f = quiet t refl refl
  thread_at_lem inside enter f = quiet t refl refl
  thread_at_lem inside fail f = quiet t refl refl
  thread_at_lem (retiring p) c f = retire_check_lem t.status.active p
  thread_at_lem (stamping p) c f = stamp_lem p
  thread_at_lem exiting c f = exit_load_lem t.status.active
  thread_at_lem (leave old) fail f = exit_swap_lem false old
  thread_at_lem (leave old) go f = exit_swap_lem (same t.status old) old
  thread_at_lem (leave old) enter f = exit_swap_lem (same t.status old) old
  thread_at_lem (leave old) exit f = exit_swap_lem (same t.status old) old
  thread_at_lem (leave old) (retire p) f = exit_swap_lem (same t.status old) old
  thread_at_lem collect c f = quiet (record t { pc = release gc }) refl refl
  thread_at_lem (release cur) c f = release_front_lem cur t.retire_list refl f.1
  thread_at_lem aborted c f = absurd f
