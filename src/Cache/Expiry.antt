-- ===== src/Cache/Expiry.antt =====
-- The expiry that an insertion hands to Redis.
use godwoken_web.Common.{ℕ, suc, ◌≡◌, refl, none, some, Text}
use godwoken_web.Cache.{Redis, Stored, Store, insert}

-- An insertion with an expiry of its own that is not zero makes that expiry the one of the next
-- insertion that names none, whatever expiry the store had.
pub insert_sticky :
    (redis : Redis) (k l : Text) (v w : Stored) (ms : ℕ) (store : Store redis)
    → (insert redis l w none (insert redis k v (some (suc ms)) store)).db
      ≡ redis.set (redis.set store.db k v (some (suc ms))) l w (some (suc ms))
unfolding insert
insert_sticky redis k l v w ms store = refl
