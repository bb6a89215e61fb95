-- ===== src/LogFilter/Agreement.antt =====
-- The SQL query and the filter in memory choose the same logs by their topics.
use godwoken_web.Common.{
  ℕ, zero, suc, ◌+◌, ◌≤◌, ◌<◌, leb→le, leb-false→lt, ap₂, Bool, true, false, ◌&&◌, some, List, [],
  ◌∷◌, ◌++◌, ◌≡◌, refl, sym, ap, ◌∙◌, map, arith, leb, length, length-map, get_elem?, drop, all,
  All, Text, text_eq, text_eq_refl, text_eq_sound, Bool-cases, inl, inr, ok,
}
use godwoken_web.Buffer.{Bytes, IsBytes, from_hex, to_hex}
use godwoken_web.Buffer.Codec.{from_hex-to_hex}
use godwoken_web.LogFilter.{
  Log, Clause, topics_length_at_least, topic_is, topic_in, keep_if, filter_logs_by_topics,
  sub_buffers, includes_topic, FilterTopic, passes, hex_to_buffer, topic_clause, topic_clauses,
  build_query_log_topics,
}
use godwoken_web.LogFilter.Topics.{matches, filter_by_topics_rule}
use godwoken_web.LogFilter.Query.{
  DbLog, buffer_to_hex, format_log, entry_in, Sql, selects, selected,
}

-- A filter over buffers, and its print, which is the filter in the form of a request.
pub data BufferTopic : Type 0 where
  anything : BufferTopic
  one : Bytes → BufferTopic
  any_of : List Bytes → BufferTopic

abbrev pub print : BufferTopic → FilterTopic
print anything = FilterTopic.anything
print (one b) = FilterTopic.one (buffer_to_hex b)
print (any_of bs) = FilterTopic.any_of (map (λ b. some (buffer_to_hex b)) bs)

abbrev pub IsBufferTopic : BufferTopic → Type 0
IsBufferTopic anything = Unit
IsBufferTopic (one b) = IsBytes b
IsBufferTopic (any_of bs) = All IsBytes bs

-- Prints are equal exactly if the buffers are.
text_eq-to_hex : (a b : Bytes) → IsBytes a → IsBytes b → text_eq (to_hex a) (to_hex b) ≡ text_eq a b
text_eq-to_hex a b ha hb = elim (Bool-cases (text_eq a b)) [
  | inl e ↦ rw (text_eq_sound a b e) (text_eq_refl (to_hex b) ∙ sym (text_eq_refl b))
  | inr e ↦ elim (Bool-cases (text_eq (to_hex a) (to_hex b))) [
    | inl e' ↦
        let same : a ≡ b =
          sym (from_hex-to_hex a ha)
          ∙ ap from_hex (text_eq_sound (to_hex a) (to_hex b) e')
          ∙ from_hex-to_hex b hb in
        rw same (text_eq_refl (to_hex b) ∙ sym (text_eq_refl b))
    | inr e' ↦ e' ∙ sym e
  ]
]

text_eq-buffer_to_hex :
    (a b : Bytes)
    → IsBytes a
    → IsBytes b
    → text_eq (buffer_to_hex a) (buffer_to_hex b) ≡ text_eq a b
unfolding text_eq
text_eq-buffer_to_hex a b ha hb = text_eq-to_hex a b ha hb

sub_buffers-print :
    (bs : List Bytes) → All IsBytes bs → sub_buffers (map (λ b. some (buffer_to_hex b)) bs) ≡ ok bs
unfolding sub_buffers hex_to_buffer
sub_buffers-print [] h = refl
sub_buffers-print (b ∷ bs) (hb, h) = rw (from_hex-to_hex b hb, sub_buffers-print bs h)

includes-entry_in :
    (bs : List Bytes) (t : Bytes)
    → All IsBytes bs
    → IsBytes t
    → includes_topic (map (λ b. some (buffer_to_hex b)) bs) (buffer_to_hex t) ≡ entry_in bs (some t)
unfolding includes_topic
includes-entry_in [] t h ht = refl
includes-entry_in (b ∷ bs) t (hb, h) ht =
    rw (text_eq-buffer_to_hex b t hb ht, includes-entry_in bs t h ht)

-- The clauses that a filter over buffers makes, one round after the other.
abbrev clause_of : ℕ → BufferTopic → List Clause
clause_of index anything = []
clause_of index (one b) = topic_is (index + 1) b ∷ []
clause_of index (any_of bs) = topic_in (index + 1) bs ∷ []

abbrev clauses_of : ℕ → List BufferTopic → List Clause
clauses_of index [] = []
clauses_of index (f ∷ fs) = clause_of index f ++ clauses_of (suc index) fs

topic_clause-print :
    (index : ℕ) (f : BufferTopic)
    → IsBufferTopic f
    → topic_clause index (print f) ≡ ok (clause_of index f)
unfolding hex_to_buffer topic_clause
topic_clause-print index anything h = refl
topic_clause-print index (one b) h = rw (from_hex-to_hex b h) refl
topic_clause-print index (any_of bs) h = rw (sub_buffers-print bs h) refl

topic_clauses-print :
    (index : ℕ) (fs : List BufferTopic)
    → All IsBufferTopic fs
    → topic_clauses index (map print fs) ≡ ok (clauses_of index fs)
unfolding topic_clauses
topic_clauses-print index [] h = refl
topic_clauses-print index (f ∷ fs) (hf, h) =
    rw (topic_clause-print index f hf, topic_clauses-print (suc index) fs h) refl

all-append {ℓ} :
    {A : Type ℓ} (p : A → Bool) (xs ys : List A) → all p (xs ++ ys) ≡ (all p xs && all p ys)
all-append p [] ys = refl
all-append p (x ∷ xs) ys = ground (arith, all-append p xs ys)

and-true : (b : Bool) → (b && true) ≡ b
and-true b = ground arith

and-false : (b : Bool) → (b && false) ≡ false
and-false b = ground arith

-- The entry at an index inside a list.
entry {ℓ κ} :
    {A : Type ℓ} (P : A → Type κ) (xs : List A) (i : ℕ)
    → i < length xs
    → All P xs
    → (x : A) × (get_elem? xs i ≡ some x) × (drop i xs ≡ x ∷ drop (suc i) xs) × P x
entry P [] i h k = absurd (omega arith)
entry P (x ∷ xs) zero h (p, k) = (x, refl, refl, p)
entry P (x ∷ xs) (suc i) h (p, k) = entry P xs i (omega arith) k

-- A filter that is longer than the topics matches nothing.
short-matches :
    (fs : List BufferTopic) (topics : List Text)
    → length topics < length fs
    → matches (map print fs) topics ≡ false
short-matches [] topics h = absurd (omega arith)
short-matches (f ∷ fs) [] h = refl
short-matches (f ∷ fs) (topic ∷ topics) h = rw (short-matches fs topics (omega arith)) (and-false _)

module _ (sql : Sql) (row : DbLog) where
  -- One position inside the row's topics.
  clause-passes :
      (f : BufferTopic) (i : ℕ) (t : Bytes)
      → IsBufferTopic f
      → IsBytes t
      → get_elem? row.topics i ≡ some t
      → selects sql (clause_of i f) row ≡ passes (some (print f)) (buffer_to_hex t)
  clause-passes anything i t hf ht e = refl
  clause-passes (one b) i t hf ht e =
      rw (sql.is_law i b row) (rw e (and-true _ ∙ sym (text_eq-buffer_to_hex t b ht hf)))
  clause-passes (any_of bs) i t hf ht e =
      rw (sql.in_law i bs row) (rw e (and-true _ ∙ sym (includes-entry_in bs t hf ht)))

  clauses-match :
      (fs : List BufferTopic) (i : ℕ)
      → i + length fs ≤ length row.topics
      → All IsBufferTopic fs
      → All IsBytes row.topics
      → selects sql (clauses_of i fs) row
        ≡ matches (map print fs) (map buffer_to_hex (drop i row.topics))
  clauses-match [] i h hf ht = refl
  clauses-match (f ∷ fs) i h (hf, hfs) ht =
      let (t, at, split, good) = entry IsBytes row.topics i (omega arith) ht in
      rw split (
        all-append (λ c. sql.holds c row) (clause_of i f) (clauses_of (suc i) fs)
        ∙ ap₂ ◌&&◌ (clause-passes f i t hf good at) (clauses-match fs (suc i) (omega arith) hfs ht))

  -- All clauses of a filter that is not empty.
  row-matches :
      (f : BufferTopic) (fs : List BufferTopic)
      → All IsBufferTopic (f ∷ fs)
      → All IsBytes row.topics
      → selects sql
          (topics_length_at_least (length (map print (f ∷ fs))) ∷ clauses_of 0 (f ∷ fs))
          row
        ≡ matches (map print (f ∷ fs)) (format_log row).topics
  unfolding format_log
  row-matches f fs hf ht =
      rw (sql.length_law (length (map print fs)) row, length-map print fs)
        (elim (Bool-cases (leb (suc (length fs)) (length row.topics))) [
          | inl long ↦ rw long (
              clauses-match (f ∷ fs) 0
                (omega (arith, leb→le (suc (length fs)) (length row.topics) long)) hf ht)
          | inr short ↦ rw short (
              sym (
                short-matches (f ∷ fs) (map buffer_to_hex row.topics) (
                  omega (
                    arith,
                    length-map buffer_to_hex row.topics,
                    leb-false→lt (suc (length fs)) (length row.topics) short,
                  ))))
        ])

abbrev pub IsRow : DbLog → Type 0
IsRow row = All IsBytes row.topics

-- Where the clauses decide of each row what a test decides of its log, the answers are the same.
selected-keep_if :
    (sql : Sql) (clauses : List Clause) (test : Log → Bool)
    → ((row : DbLog) → IsRow row → selects sql clauses row ≡ test (format_log row))
    → (rows : List DbLog) → All IsRow rows
    → map format_log (selected sql clauses rows) ≡ keep_if test (map format_log rows)
unfolding keep_if
selected-keep_if sql clauses test agrees [] h = refl
selected-keep_if sql clauses test agrees (row ∷ rows) (hr, h) =
    elim (Bool-cases (test (format_log row))) [
      | inl b ↦
          rw (agrees row hr, b)
            (ap (λ r. format_log row ∷ r) (selected-keep_if sql clauses test agrees rows h))
      | inr b ↦ rw (agrees row hr, b) (selected-keep_if sql clauses test agrees rows h)
    ]

-- For every filter whose topics are printed buffers, every table of rows and every database that keeps
-- what is documented of the three clauses: the query for the filter is built, and the logs of the rows
-- that it selects are, in order, the logs that the filter in memory keeps of those of the table.
pub query-agrees :
    (sql : Sql) (rows : List DbLog) (fs : List BufferTopic)
    → All IsBufferTopic fs
    → All IsRow rows
    → (clauses : List Clause) × (build_query_log_topics (map print fs) ≡ ok clauses)
      × (map format_log (selected sql clauses rows)
          ≡ filter_logs_by_topics (map format_log rows) (map print fs))
unfolding build_query_log_topics
query-agrees sql rows [] hf ht = (
  [],
  refl,
  selected-keep_if sql [] (λ log. true) (λ row h. refl) rows ht
      ∙ sym ((filter_by_topics_rule (map format_log rows) []).0),
)
query-agrees sql rows (f ∷ fs) hf ht = (
  topics_length_at_least (length (map print (f ∷ fs))) ∷ clauses_of 0 (f ∷ fs),
  rw (topic_clauses-print 0 (f ∷ fs) hf) refl,
  selected-keep_if sql
        (topics_length_at_least (length (map print (f ∷ fs))) ∷ clauses_of 0 (f ∷ fs))
        (λ log. matches (map print (f ∷ fs)) log.topics) (λ row h. row-matches sql row f fs hf h)
        rows ht
      ∙ sym ((filter_by_topics_rule (map format_log rows) (map print (f ∷ fs))).0),
)
