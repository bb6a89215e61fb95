-- ===== src/Eth/Manager.antt =====
-- The class `FilterManager` as the filter manager of the methods: it keeps what they rely on.
use godwoken_web.Common.{◌≡◌, refl, Option, none, some, Text, Result, ok, ◌>>=◌, ℕ}
use godwoken_web.Json.{Value}
use godwoken_web.Cache.{Redis, Store}
use godwoken_web.Cache.Laws.{Laws}
use godwoken_web.FilterManager.{
  FilterCacheInDb, verify_filter_type, install, get, uninstall, get_last_poll, update_last_poll,
  get_filter_cache,
}
use godwoken_web.FilterManager.Lifecycle.{Keeps, Holds, inserted, cache_held, deserialize-serialize}
use godwoken_web.Eth.Filters.{Filter, Filters}
use godwoken_web.Eth.Filters

module _ (redis : Redis) (stringify : FilterCacheInDb → Text)
    (parse : Text → Result FilterCacheInDb) (encode : Filter → Value)
    (decode : Value → Filter) where
  abbrev pub decoded : Option Value → Option Filter
  decoded none = none
  decoded (some value) = some (decode value)

  -- The operations, where a filter is kept as the value that stands for it.
  abbrev pub manager : Filters (Store redis)
  manager = record {
    install = λ filter place id store. install redis stringify parse (encode filter) place id store;
    get = λ id store. get redis stringify parse id store >>= λ found. ok (decoded found);
    uninstall = λ id store. uninstall redis stringify parse id store;
    get_last_poll = λ id store. get_last_poll redis stringify parse id store;
    update_last_poll = λ id place store. update_last_poll redis stringify parse id place store;
  }

  -- A filter that passes the checks, and that JSON and the value give back.
  pub record Storable (filter : Filter) : Type 0 where
    pub keeps : Keeps redis stringify parse (encode filter)
    pub valid : verify_filter_type (encode filter) ≡ ok tt
    pub decode_encode : decode (encode filter) ≡ filter

  pub record Stored (laws : Laws redis) (id : Text) (filter : Filter) (place : ℕ)
      (store : Store redis) : Type 0 where
    pub storable : Storable filter
    pub held :
        Holds redis stringify parse laws
          (encode filter)
          storable.keeps
          storable.valid
          id
          place
          store

  module _ (laws : Laws redis) (id : Text) (filter : Filter) (place : ℕ) (store : Store redis)
      (s : Stored laws id filter place store) where
    get_found : manager.get id store ≡ ok (some filter)
    unfolding get
    get_found =
        rw
          (
            s.held,
            deserialize-serialize redis stringify parse laws (encode filter) s.storable.keeps
                s.storable.valid id place,
            s.storable.decode_encode,
          )
          refl

    cache_found :
        get_filter_cache redis stringify parse id store
        ≡ ok (record { filter = encode filter; last_poll = place })
    cache_found =
        cache_held redis stringify parse laws (encode filter) s.storable.keeps s.storable.valid id
          place store s.held

    place_found : manager.get_last_poll id store ≡ ok place
    unfolding get_last_poll
    place_found = rw cache_found refl

    moved :
        (next : ℕ)
        → (x : Store redis) × (manager.update_last_poll id next store ≡ ok x)
          × Stored laws id filter next x
    unfolding update_last_poll
    moved next = (
      _,
      rw cache_found refl,
      record {
        storable = s.storable;
        held =
            inserted redis stringify parse laws (encode filter) s.storable.keeps s.storable.valid id
              next store;
      },
    )

  -- For a Redis that keeps its documented laws, the class keeps the laws of a filter manager.
  pub manager-Laws : Laws redis → Filters.Laws manager
  manager-Laws laws = record {
    Holds = Stored laws;
    get_law = get_found laws;
    get_last_poll_law = place_found laws;
    update_law = λ id filter place next store s. moved laws id filter place store s next;
  }
