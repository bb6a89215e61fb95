-- ===== src/Cache/Laws.antt =====
-- What the store relies on of Redis, between two expiries: the documented effect of SET, UNLINK and
-- INCR on what GET answers.
use godwoken_web.Common.{ℕ, ◌+◌, ◌<◌, ◌^◌, ◌≡◌, ◌≢◌, Option, none, some, Text}
use godwoken_web.Cache.{Redis, Stored, count}

pub record Laws (redis : Redis) : Type 0 where
  pub get_set_same :
      (db : redis.Db) (k : Text) (v : Stored) (px : Option ℕ)
      → redis.get (redis.set db k v px) k ≡ some v
  pub get_set_other :
      (db : redis.Db) (k l : Text) (v : Stored) (px : Option ℕ)
      → k ≢ l
      → redis.get (redis.set db k v px) l ≡ redis.get db l
  pub get_unlink_same : (db : redis.Db) (k : Text) → redis.get (redis.unlink db k) k ≡ none
  pub get_incr_same :
      (db : redis.Db) (k : Text) (n : ℕ)
      → redis.get db k ≡ some (count n)
      → n + 1 < 2 ^ 63
      → redis.get (redis.incr db k) k ≡ some (count (n + 1))
  pub get_incr_other :
      (db : redis.Db) (k l : Text) → k ≢ l → redis.get (redis.incr db k) l ≡ redis.get db l
