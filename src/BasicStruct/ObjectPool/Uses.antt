-- ===== src/BasicStruct/ObjectPool/Uses.antt =====
-- A pool in use: which of its objects are live after calls of `acquire` and `release`.
use rock_coro.Prelude.{ℕ, ◌<◌, ◌≡◌, sym, ◌∙◌, subst, Option, none, some, List, [], ◌∷◌, ◌++◌, arith}
use rock_coro.BasicStruct.ObjectPool.{Object, ObjectPool, new, acquire, release}
use rock_coro.BasicStruct.ObjectPool.Balance.{
  IsBalanced, count, count-append, Acquired, new-IsBalanced, acquire-Acquired, release-Covers,
}

-- A live object may be released whenever, and just once.
pub data Uses (K n : ℕ) : ObjectPool → List Object → Type 0 where
  made : Uses K n (new K n) []
  acquired :
      {p p' : ObjectPool} {x : Object} {live : List Object}
      → Uses K n p live
      → acquire K p ≡ some (p', x)
      → Uses K n p' (x ∷ live)
  released :
      {p : ObjectPool} (x : Object) (before after : List Object)
      → Uses K n p (before ++ (x ∷ after))
      → Uses K n (release p x) (before ++ after)

abbrev BalancedAfter : ℕ → List Object → Option (ObjectPool × Object) → Type 0
BalancedAfter K live none = Unit {0}
BalancedAfter K live (some (p, x)) = IsBalanced K p (x ∷ live)

Uses-IsBalanced :
    {K n : ℕ} {p : ObjectPool} {live : List Object} → 0 < K → Uses K n p live → IsBalanced K p live
Uses-IsBalanced {K = K} {n = n} h made = new-IsBalanced K n
Uses-IsBalanced {K = K} h (acquired {p = p} {live = live} u e) =
    let (q, y, e', b, f) = acquire-Acquired K p (λ a. count a live) h (Uses-IsBalanced h u) in
    subst (BalancedAfter K live) (sym e' ∙ e) b
Uses-IsBalanced {K = K} h (released {p = p} x before after u) =
    release-Covers K p x (λ a. count a (before ++ after))
      (λ a. omega (
        arith,
        Uses-IsBalanced h u a,
        count-append a before (x ∷ after),
        count-append a before after,
      ))

-- With one object or more to a block, and after any calls of acquire and release in which only
-- live objects are released, in any order: acquire returns an object that is not live, and from
-- then on each object of the blocks made so far is free or live, just once, and no other object is
-- either.
pub acquire_is_fresh :
    (K n : ℕ) (p : ObjectPool) (live : List Object)
    → 0 < K
    → Uses K n p live
    → Acquired K p (λ a. count a live)
acquire_is_fresh K n p live h u = acquire-Acquired K p (λ a. count a live) h (Uses-IsBalanced h u)
