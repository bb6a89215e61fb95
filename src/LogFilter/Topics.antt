-- ===== src/LogFilter/Topics.antt =====
-- The filter in memory keeps exactly the logs that the documented rule describes.
use godwoken_web.Common.{
  suc_eq_zero, ℕ, suc, Bool, true, false, ◌&&◌, some, List, [], ◌∷◌, ◌≡◌, ◌⊎◌, ◌↔◌, refl, sym,
  arith, leb, length, all, Text, text_eq_iff, text_eq, ap, some_injective, Option, none, inl, inr,
  Bool-cases,
}
use godwoken_web.LogFilter.{
  Log, FilterTopic, anything, one, any_of, includes_topic, is_null, passes, topics_match, keep_if,
  filter_logs_by_topics,
}

abbrev pub Among : Text → List (Option Text) → Type 0
Among x [] = ⊥
Among x (y ∷ ys) = (y ≡ some x) ⊎ Among x ys

-- What the comment says of one position: null is anything, a text is that topic, and an array is any
-- of its topics. The code treats the empty text as null.
abbrev pub Allows : FilterTopic → Text → Type 0
Allows anything topic = Unit
Allows (one []) topic = Unit
Allows (one (c ∷ s)) topic = topic ≡ c ∷ s
Allows (any_of ss) topic = Among topic ss

-- Positions are matched in order; topics beyond the filter are free, and a filter that is longer than
-- the topics matches nothing.
abbrev pub Matches : List FilterTopic → List Text → Type 0
Matches [] topics = Unit
Matches (f ∷ fs) [] = ⊥
Matches (f ∷ fs) (topic ∷ topics) = Allows f topic × Matches fs topics

-- The same rule as a test.
abbrev pub matches : List FilterTopic → List Text → Bool
matches [] topics = true
matches (f ∷ fs) [] = false
matches (f ∷ fs) (topic ∷ topics) = passes (some f) topic && matches fs topics

includes_iff : (ss : List (Option Text)) (x : Text) → (includes_topic ss x ≡ true) ↔ Among x ss
unfolding includes_topic
includes_iff [] x = ground arith
includes_iff (none ∷ ss) x =
    let (sound, complete) = includes_iff ss x in
    (λ h. inr (sound h), λ a. elim a [ inl e ↦ absurd cc | inr k ↦ complete k ])
includes_iff (some s ∷ ss) x =
    let (sound, complete) = text_eq_iff s x in
    let iff : (text_eq s x ≡ true) ↔ (some s ≡ some x) =
      (λ h. ap some (sound h), λ e. complete (some_injective e)) in
    ground (arith, includes_iff ss x, iff)

passes_iff : (f : FilterTopic) (topic : Text) → (passes (some f) topic ≡ true) ↔ Allows f topic
passes_iff anything topic = ground arith
passes_iff (one []) topic = ground arith
passes_iff (one (c ∷ s)) topic = text_eq_iff topic (c ∷ s)
passes_iff (any_of ss) topic = includes_iff ss topic

pub matches_iff :
    (fs : List FilterTopic) (topics : List Text) → (matches fs topics ≡ true) ↔ Matches fs topics
matches_iff [] topics = ground arith
matches_iff (f ∷ fs) [] = ground arith
matches_iff (f ∷ fs) (topic ∷ topics) = ground (arith, matches_iff fs topics, passes_iff f topic)

-- The loop over a longer filter from the next index on is the loop over its tail.
shift :
    (f : FilterTopic) (fs : List FilterTopic) (i : ℕ) (topics : List Text)
    → topics_match (f ∷ fs) (suc i) topics ≡ topics_match fs i topics
unfolding topics_match
shift f fs i [] = refl
shift f fs i (topic ∷ topics) = rw (shift f fs (suc i) topics)

beyond : (i : ℕ) (topics : List Text) → topics_match [] i topics ≡ true
unfolding topics_match
beyond i [] = refl
beyond i (topic ∷ topics) = beyond (suc i) topics

loop-matches :
    (fs : List FilterTopic) (topics : List Text)
    → (leb (length fs) (length topics) && topics_match fs 0 topics) ≡ matches fs topics
unfolding topics_match
loop-matches [] topics = ground (arith, beyond 0 topics)
loop-matches (f ∷ fs) [] = ground arith
loop-matches (f ∷ fs) (topic ∷ topics) = ground (arith, loop-matches fs topics, shift f fs 0 topics)

nulls-matches :
    (fs : List FilterTopic) (topics : List Text)
    → all is_null fs ≡ true
    → leb (length fs) (length topics) ≡ matches fs topics
nulls-matches [] topics h = ground arith
nulls-matches (f ∷ fs) [] h = ground arith
nulls-matches (anything ∷ fs) (topic ∷ topics) h = ground (arith, nulls-matches fs topics h)
nulls-matches (one s ∷ fs) (topic ∷ topics) h = cc
nulls-matches (any_of ss ∷ fs) (topic ∷ topics) h = cc

pub keep_if-cong :
    (p q : Log → Bool)
    → ((log : Log) → p log ≡ q log)
    → (logs : List Log) → keep_if p logs ≡ keep_if q logs
unfolding keep_if
keep_if-cong p q h [] = refl
keep_if-cong p q h (log ∷ logs) = rw (h log, keep_if-cong p q h logs)

pub keep_if_all :
    (p : Log → Bool) → ((log : Log) → p log ≡ true) → (logs : List Log) → keep_if p logs ≡ logs
unfolding keep_if
keep_if_all p h [] = refl
keep_if_all p h (log ∷ logs) = rw (h log, keep_if_all p h logs)

filter-keep_if :
    (logs : List Log) (fs : List FilterTopic)
    → filter_logs_by_topics logs fs ≡ keep_if (λ log. matches fs log.topics) logs
unfolding filter_logs_by_topics
filter-keep_if logs [] = sym (keep_if_all (λ log. matches [] log.topics) (λ log. refl) logs)
filter-keep_if logs (f ∷ fs) = elim (Bool-cases (all is_null (f ∷ fs))) [
  | inl nulls ↦ rw (suc_eq_zero (length fs)) (
      rw nulls (
        keep_if-cong _ (λ log. matches (f ∷ fs) log.topics)
          (λ log. nulls-matches (f ∷ fs) log.topics nulls) logs))
  | inr some_test ↦ rw (suc_eq_zero (length fs)) (
      rw some_test (
        keep_if-cong _ (λ log. matches (f ∷ fs) log.topics)
          (λ log. loop-matches (f ∷ fs) log.topics) logs))
]

-- For every list of logs and every filter, the logs that `filterLogsByTopics` returns are, in order,
-- those that pass a test, and a log passes the test exactly if its topics match the filter by the
-- rule in the comment: position by position, null for anything, an array for any of its topics, and
-- no match for a log with fewer topics than the filter.
pub filter_by_topics_rule :
    (logs : List Log) (fs : List FilterTopic)
    → (filter_logs_by_topics logs fs ≡ keep_if (λ log. matches fs log.topics) logs)
      × ((log : Log) → (matches fs log.topics ≡ true) ↔ Matches fs log.topics)
filter_by_topics_rule logs fs = (filter-keep_if logs fs, λ log. matches_iff fs log.topics)
