-- ===== src/Subscriptions/Heads.antt =====
-- Which heads a subscription gets.
use godwoken_web.Common.{
  true, false, ◌||◌, Bool-cases, inl, inr, List, [], ◌∷◌, ◌++◌, map, if◌then◌else◌, if_intro, Text,
  text_eq, text_eq_sound, Result, ok, err, ◌≡◌, refl, ◌∙◌, sym, ap, arith,
}
use godwoken_web.LogFilter.{Log, includes, filter_logs_by_address, filter_logs_by_topics}
use godwoken_web.Api.{EthNewHead, EthLog}
use godwoken_web.Subscriptions.{
  LogQueryOption, Notification, new_head, new_logs, set_add, set_delete, head_notifications,
  log_notification, notify_logs, log_notifications, or_no_topics,
}

-- The heads that are sent for a subscription.
unfoldable pub heads_to : Text → List Notification → List EthNewHead
unfolding text_eq
heads_to id [] = []
heads_to id (new_head to head ∷ ns) =
    if text_eq to id then head ∷ heads_to id ns else heads_to id ns
heads_to id (new_logs to logs ∷ ns) = heads_to id ns

abbrev pub Distinct : List Text → Type 0
Distinct [] = Unit
Distinct (x ∷ ids) = (includes ids x ≡ false) × Distinct ids

pub heads_to-append :
    (id : Text) (ms ns : List Notification)
    → heads_to id (ms ++ ns) ≡ heads_to id ms ++ heads_to id ns
unfolding heads_to
heads_to-append id [] ns = refl
heads_to-append id (new_head to head ∷ ms) ns = elim (Bool-cases (text_eq to id)) [
  | inl e ↦ rw e (ap (λ r. head ∷ r) (heads_to-append id ms ns))
  | inr e ↦ rw e (heads_to-append id ms ns)
]
heads_to-append id (new_logs to logs ∷ ms) ns = heads_to-append id ms ns

-- A head goes once to each id of the set.
heads_to-map :
    (id : Text) (b : EthNewHead) (ids : List Text)
    → Distinct ids
    → heads_to id (map (λ i. new_head i b) ids) ≡ (if includes ids id then b ∷ [] else [])
unfolding heads_to includes
heads_to-map id b [] d = refl
heads_to-map id b (x ∷ ids) (fresh, d) = elim (Bool-cases (text_eq x id)) [
  | inl e ↦
      let gone : includes ids id ≡ false = rw (text_eq_sound x id e) at fresh in
      rw e (ap (λ r. b ∷ r) (heads_to-map id b ids d ∙ rw gone refl))
  | inr e ↦ rw e (heads_to-map id b ids d)
]

pub heads_to-head_notifications :
    (id : Text) (ids : List Text) (hs : List EthNewHead)
    → Distinct ids
    → heads_to id (head_notifications ids hs) ≡ (if includes ids id then hs else [])
unfolding head_notifications heads_to
heads_to-head_notifications id ids [] d =
    if_intro (λ r. [] ≡ r) (includes ids id) [] [] (λ _. refl) (λ _. refl)
heads_to-head_notifications id ids (h ∷ hs) d =
    heads_to-append id (map (λ i. new_head i h) ids) _ ∙ elim (Bool-cases (includes ids id)) [
      | inl e ↦ rw (heads_to-map id h ids d, heads_to-head_notifications id ids hs d, e) refl
      | inr e ↦ rw (heads_to-map id h ids d, heads_to-head_notifications id ids hs d, e) refl
    ]

pub text_eq_sym : (s t : Text) → text_eq s t ≡ text_eq t s
text_eq_sym s t = elim (Bool-cases (text_eq s t)) [
  | inl e ↦ rw (text_eq_sound s t e) refl
  | inr e ↦ elim (Bool-cases (text_eq t s)) [
    | inr h ↦ e ∙ sym h
    | inl h ↦ rw (text_eq_sound t s h) refl
  ]
]

-- The sets of ids.
includes-append :
    (ids : List Text) (x id : Text)
    → includes (ids ++ (x ∷ [])) id ≡ (includes ids id || text_eq x id)
unfolding includes
includes-append [] x id = ground arith
includes-append (y ∷ ids) x id = ground (arith, includes-append ids x id)

pub includes-set_add :
    (x : Text) (ids : List Text) (id : Text)
    → includes (set_add x ids) id ≡ (if text_eq x id then true else includes ids id)
unfolding set_add
includes-set_add x ids id = elim (Bool-cases (text_eq x id)) [
  | inl e ↦ elim (Bool-cases (includes ids x)) [
    | inl h ↦ rw (h, e) (rw (text_eq_sound x id e) at h)
    | inr h ↦ rw (h, e, includes-append ids x id) (ground (arith, e))
  ]
  | inr e ↦ elim (Bool-cases (includes ids x)) [
    | inl h ↦ rw (h, e) refl
    | inr h ↦ rw (h, e, includes-append ids x id) (ground (arith, e))
  ]
]

Distinct-append :
    (ids : List Text) (x : Text)
    → includes ids x ≡ false
    → Distinct ids
    → Distinct (ids ++ (x ∷ []))
unfolding includes
Distinct-append [] x h d = (refl, tt)
Distinct-append (y ∷ ids) x h (fresh, d) =
    let differ : text_eq x y ≡ false = text_eq_sym x y ∙ ground (arith, h) in
    (
      includes-append ids x y ∙ ground (arith, fresh, differ),
      Distinct-append ids x (ground (arith, h)) d,
    )

pub set_add-Distinct : (x : Text) (ids : List Text) → Distinct ids → Distinct (set_add x ids)
unfolding set_add
set_add-Distinct x ids d =
    if_intro Distinct (includes ids x) ids (ids ++ (x ∷ [])) (λ _. d)
      (λ h. Distinct-append ids x h d)

pub includes-set_delete :
    (x : Text) (ids : List Text) (id : Text)
    → includes (set_delete x ids) id ≡ (if text_eq x id then false else includes ids id)
unfolding set_delete includes
includes-set_delete x [] id =
    if_intro (λ r. false ≡ r) (text_eq x id) false false (λ _. refl) (λ _. refl)
includes-set_delete x (y ∷ ids) id = elim (Bool-cases (text_eq y x)) [
  | inl e ↦
      let same : text_eq y id ≡ text_eq x id = ap (λ z. text_eq z id) (text_eq_sound y x e) in
      rw e (ground (arith, includes-set_delete x ids id, same))
  | inr e ↦ elim (Bool-cases (text_eq x id)) [
    | inl h ↦
        let same : text_eq y x ≡ text_eq y id = ap (text_eq y) (text_eq_sound x id h) in
        rw e (ground (arith, includes-set_delete x ids id, same, e, h))
    | inr h ↦ rw e (ground (arith, includes-set_delete x ids id, h))
  ]
]

pub set_delete-Distinct : (x : Text) (ids : List Text) → Distinct ids → Distinct (set_delete x ids)
unfolding set_delete includes
set_delete-Distinct x [] d = tt
set_delete-Distinct x (y ∷ ids) (fresh, d) =
    if_intro Distinct (text_eq y x) (set_delete x ids) (y ∷ set_delete x ids)
      (λ _. set_delete-Distinct x ids d)
      (λ _. (includes-set_delete x ids y ∙ ground (arith, fresh), set_delete-Distinct x ids d))

no_logged_heads :
    (parse : Text → Log) (to_eth_tx_hash : Text → Text) (id to : Text) (r : Result (List EthLog))
    → heads_to id (log_notification parse to_eth_tx_hash to r) ≡ []
unfolding heads_to
no_logged_heads parse to_eth id to (ok logs) = refl
no_logged_heads parse to_eth id to (err thrown) = refl

no_notified_heads :
    (parse : Text → Log) (to_eth_tx_hash : Text → Text) (id to : Text) (logs : List Log)
    → heads_to id (notify_logs parse to_eth_tx_hash to logs) ≡ []
unfolding notify_logs heads_to
no_notified_heads parse to_eth id to [] = refl
no_notified_heads parse to_eth id to (log ∷ logs) = no_logged_heads parse to_eth id to _

pub no_heads :
    (parse : Text → Log) (to_eth_tx_hash : Text → Text) (id : Text)
    (entries : List (Text × LogQueryOption)) (logs : List Log)
    → heads_to id (log_notifications parse to_eth_tx_hash entries logs) ≡ []
unfolding log_notifications heads_to
no_heads parse to_eth id [] logs = refl
no_heads parse to_eth id (entry ∷ entries) logs =
    let found =
      filter_logs_by_topics (filter_logs_by_address logs entry.1.address)
        (or_no_topics entry.1.topics) in
    heads_to-append id (notify_logs parse to_eth entry.0 found)
      (log_notifications parse to_eth entries logs)
    ∙ rw (no_notified_heads parse to_eth id entry.0 found, no_heads parse to_eth id entries logs)
        refl
