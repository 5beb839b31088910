-- ===== src/BasicStruct/ObjectPool/Tests.antt =====
-- A pool with blocks of two objects.
use rock_coro.Prelude.{◌≡◌, refl, some, [], ◌∷◌, arith}
use rock_coro.BasicStruct.ObjectPool.{Object, ObjectPool, new, acquire}
use rock_coro.BasicStruct.ObjectPool.Balance.{Acquired, count}
use rock_coro.BasicStruct.ObjectPool.Uses.{made, acquired, acquire_is_fresh}

abbrev object : Object
object = record { block = 0; index = 1 }

abbrev left : ObjectPool
left = record { block_count = 1; free_list = record { block = 0; index = 0 } ∷ [] }

first_acquire : acquire 2 (new 2 1) ≡ some (left, object)
unfolding acquire new
first_acquire = refl

acquire_is_fresh_example : Acquired 2 left (λ a. count a (object ∷ []))
acquire_is_fresh_example =
    acquire_is_fresh 2 1 left (object ∷ []) (omega arith) (acquired made first_acquire)
