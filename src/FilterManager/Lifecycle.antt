-- ===== src/FilterManager/Lifecycle.antt =====
-- The life of a filter: installed, polled and uninstalled.
use godwoken_web.Common.{ℕ, ◌≡◌, refl, ◌∙◌, true, none, some, Text, codes, Result, ok}
use godwoken_web.Hex.{to_hex_number}
use godwoken_web.Hex.Numbers.{big_int-to_hex_number}
use godwoken_web.Json.{Value, obj, Fields}
use godwoken_web.Validator.{refused}
use godwoken_web.Validator.Objects.{field, verify_new_filter_obj}
use godwoken_web.Cache.{Redis, or_else, Stored, text, Store}
use godwoken_web.Cache
use godwoken_web.Cache.Laws.{Laws}
use godwoken_web.FilterManager.{
  FilterCacheInDb, is_truthy, verify_filter_type, verify_limit_size_for_topics,
  serialize_filter_cache, deserialize_filter_cache, install, get, uninstall, get_filter_cache,
  update_last_poll, get_last_poll,
}

module _ (redis : Redis) (stringify : FilterCacheInDb → Text)
    (parse : Text → Result FilterCacheInDb) where
  -- JSON gives back the filter that is kept, with any place.
  abbrev pub Keeps : Value → Type 0
  Keeps filter =
      (place : Text)
      → parse (stringify (record { filter = filter; last_poll = place }))
        ≡ ok (record { filter = filter; last_poll = place })

  module _ (laws : Laws redis) (filter : Value) (keeps : Keeps filter)
      (valid : verify_filter_type filter ≡ ok tt) (id : Text) where
    -- What the id holds while the filter is installed with this place.
    abbrev pub Holds : ℕ → Store redis → Type 0
    Holds place store =
        Cache.get redis id store
        ≡ some (
            text (
              serialize_filter_cache redis stringify parse
                (record { filter = filter; last_poll = place })))

    pub deserialize-serialize :
        (place : ℕ)
        → deserialize_filter_cache redis stringify parse (
            serialize_filter_cache redis stringify parse
              (record { filter = filter; last_poll = place }))
          ≡ ok (record { filter = filter; last_poll = place })
    unfolding deserialize_filter_cache serialize_filter_cache
    deserialize-serialize place =
        rw (keeps (to_hex_number place), big_int-to_hex_number place, valid) refl

    pub inserted :
        (place : ℕ) (store : Store redis)
        → Holds place (
            Cache.insert redis id
              (text (
                serialize_filter_cache redis stringify parse
                  (record { filter = filter; last_poll = place })))
              none
              store)
    unfolding Cache.insert Cache.get
    inserted place store = laws.get_set_same store.db id _ (or_else store.px store.px)

    pub cache_held :
        (place : ℕ) (store : Store redis)
        → Holds place store
        → get_filter_cache redis stringify parse id store
          ≡ ok (record { filter = filter; last_poll = place })
    unfolding get_filter_cache
    cache_held place store h = rw h (deserialize-serialize place)

    -- What the operations answer while the filter is installed.
    abbrev pub Answers : ℕ → Store redis → Type 0
    Answers place store =
        (get redis stringify parse id store ≡ ok (some filter))
        × (get_last_poll redis stringify parse id store ≡ ok place)
        × (uninstall redis stringify parse id store ≡ ok (true, Cache.delete redis id store))

    answers :
        is_truthy filter ≡ true
        → (place : ℕ) (store : Store redis) → Holds place store
        → Answers place store
    unfolding get get_last_poll uninstall
    answers truthy place store h = (
      rw (h, deserialize-serialize place) refl,
      rw (cache_held place store h) refl,
      rw (h, deserialize-serialize place, truthy) refl,
    )

  gone :
      Laws redis
      → (id : Text) (s : Store redis)
      → get redis stringify parse id (Cache.delete redis id s) ≡ ok none
  unfolding get Cache.delete Cache.get
  gone laws id s = rw (laws.get_unlink_same s.db id) refl

  -- For a Redis that keeps its documented laws and a JSON that gives the filter back: a filter
  -- that passes the checks and is truthy is installed. From then on it is found, with the place of
  -- the first poll and, when that is moved, with the new one; then it is uninstalled, and behind
  -- that it is not found.
  pub install-lifecycle :
      Laws redis
      → (filter : Value) → Keeps filter
      → verify_filter_type filter ≡ ok tt
      → is_truthy filter ≡ true
      → (id : Text) (first next : ℕ) (store : Store redis)
      → (installed moved : Store redis) × (install redis stringify parse filter first id store
          ≡ ok installed)
        × (get redis stringify parse id installed ≡ ok (some filter))
        × (get_last_poll redis stringify parse id installed ≡ ok first)
        × (update_last_poll redis stringify parse id next installed ≡ ok moved)
        × (get redis stringify parse id moved ≡ ok (some filter))
        × (get_last_poll redis stringify parse id moved ≡ ok next)
        × (uninstall redis stringify parse id moved ≡ ok (true, Cache.delete redis id moved))
        × (get redis stringify parse id (Cache.delete redis id moved) ≡ ok none)
  unfolding install update_last_poll
  install-lifecycle laws filter keeps valid truthy id first next store =
      let kept = λ (place : ℕ). text (
        serialize_filter_cache redis stringify parse
          (record { filter = filter; last_poll = place })) in
      let installed = Cache.insert redis id (kept first) none store in
      let moved = Cache.insert redis id (kept next) none installed in
      let (a, b, c) =
        answers laws filter keeps valid id truthy first installed
          (inserted laws filter keeps valid id first store) in
      let (d, e, f) =
        answers laws filter keeps valid id truthy next moved
          (inserted laws filter keeps valid id next installed) in
      let held =
        cache_held laws filter keeps valid id first installed
          (inserted laws filter keeps valid id first store) in
      (installed, moved, rw valid refl, a, b, rw held refl, d, e, f, gone laws id moved)

  refused_type :
      (fs : Fields)
      → verify_new_filter_obj (obj fs) ≡ refused
      → verify_filter_type (obj fs) ≡ verify_limit_size_for_topics (field (codes "topics") (obj fs))
  unfolding verify_filter_type
  refused_type fs h = rw h refl

  -- An object that the validator of filters refuses is installed all the same, if only its topics are
  -- within the limits of their number.
  pub install_unvalidated :
      (fs : Fields) (id : Text) (place : ℕ) (store : Store redis)
      → verify_new_filter_obj (obj fs) ≡ refused
      → verify_limit_size_for_topics (field (codes "topics") (obj fs)) ≡ ok tt
      → install redis stringify parse (obj fs) place id store
        ≡ ok (
            Cache.insert redis id
              (text (
                serialize_filter_cache redis stringify parse
                  (record { filter = obj fs; last_poll = place })))
              none
              store)
  unfolding install
  install_unvalidated fs id place store h k = rw (refused_type fs h ∙ k) refl
