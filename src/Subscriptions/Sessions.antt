-- ===== src/Subscriptions/Sessions.antt =====
-- A subscription to new heads over the life of its connection.
use godwoken_web.Common.{
  Bool, true, false, ◌&&◌, Bool-cases, inl, inr, Option, none, some, map, List, [], ◌∷◌, ◌++◌,
  append_assoc, append-nil, if◌then◌else◌, if_intro, Text, codes, text_eq, text_eq_sound, ◌≡◌, refl,
  ◌∙◌, sym, ap,
}
use godwoken_web.LogFilter.{Log, includes}
use godwoken_web.Api.{EthNewHead}
use godwoken_web.Emitter.{Event, heads_event, logs_event}
use godwoken_web.Subscriptions.{
  LogQueryOption, Reply, Connection, LogsParam, eth_subscribe, subscribe_logs,
  parse_logs_sub_params, eth_unsubscribe, close, log_notifications, block_listener, logs_listener,
  emit,
}
use godwoken_web.Subscriptions.Heads.{
  heads_to, Distinct, heads_to-append, heads_to-head_notifications, includes-set_add,
  set_add-Distinct, includes-set_delete, set_delete-Distinct, no_heads,
}

-- What happens to a connection.
pub data Action : Type 0 where
  emitted : Event → Action
  subscribe : Text → LogsParam → Text → Action
  unsubscribe : Text → Action
  closed : Action

module _ (parse : Text → Log) (to_eth_tx_hash : Text → Text) where
  abbrev pub act : Action → Connection → Connection
  act (emitted event) c = emit parse to_eth_tx_hash event c
  act (subscribe name param id) c = (eth_subscribe name param id c).0
  act (unsubscribe id) c = (eth_unsubscribe id c).0
  act closed c = close c

  abbrev pub run : List Action → Connection → Connection
  run [] c = c
  run (action ∷ actions) c = run actions (act action c)

-- The heads that an id is to get: those that are emitted while the connection listens and the id is
-- subscribed to new heads.
unfoldable pub due : Text → Bool → Bool → List Action → List EthNewHead
unfolding text_eq
due id listening member [] = []
due id listening member (emitted (heads_event heads) ∷ actions) =
    (if listening && member then heads else []) ++ due id listening member actions
due id listening member (emitted (logs_event logs) ∷ actions) = due id listening member actions
due id listening member (subscribe name param new_id ∷ actions) =
    due id listening (if text_eq name (codes "newHeads") && text_eq new_id id then true else member)
      actions
due id listening member (unsubscribe old_id ∷ actions) =
    due id listening (if text_eq old_id id then false else member) actions
due id listening member (closed ∷ actions) = due id false member actions

not_member :
    (id old_id : Text) (ids : List Text)
    → includes ids old_id ≡ false
    → includes ids id ≡ (if text_eq old_id id then false else includes ids id)
not_member id old_id ids h = elim (Bool-cases (text_eq old_id id)) [
  | inl e ↦ rw e (rw (text_eq_sound old_id id e) at h)
  | inr e ↦ rw e refl
]

module _ (parse : Text → Log) (to_eth_tx_hash : Text → Text) (id : Text) where
  -- What an action does to the part of the state that the heads of the id depend on.
  record Moves (c d : Connection) (listening member : Bool) : Type 0 where
    pub sent_same : heads_to id d.sent ≡ heads_to id c.sent
    pub listening_is : d.listening ≡ listening
    pub member_is : includes d.new_heads_ids id ≡ member
    pub distinct : Distinct d.new_heads_ids

  logs-Moves :
      (new_id : Text) (query : Option LogQueryOption) (c : Connection)
      → Distinct c.new_heads_ids
      → Moves c (subscribe_logs new_id query c).0 c.listening (includes c.new_heads_ids id)
  unfolding subscribe_logs
  logs-Moves new_id none c d = record {
    sent_same = refl;
    listening_is = refl;
    member_is = refl;
    distinct = d;
  }
  logs-Moves new_id (some query) c d = record {
    sent_same = refl;
    listening_is = refl;
    member_is = refl;
    distinct = d;
  }

  subscribed-Moves :
      (name : Text) (param : LogsParam) (new_id : Text) (c : Connection)
      → Distinct c.new_heads_ids
      → Moves c (eth_subscribe name param new_id c).0 c.listening (
          if text_eq name (codes "newHeads") && text_eq new_id id
          then true
          else includes c.new_heads_ids id)
  unfolding eth_subscribe
  subscribed-Moves name param new_id c d =
      let stays =
        λ (p : Connection × Reply). Moves c p.0 c.listening (includes c.new_heads_ids id) in
      elim (Bool-cases (text_eq name (codes "newHeads"))) [
        | inl e ↦ rw e (record {
          sent_same = refl;
          listening_is = refl;
          member_is = includes-set_add new_id c.new_heads_ids id;
          distinct = set_add-Distinct new_id c.new_heads_ids d;
        })
        | inr e ↦ rw e (
            if_intro stays (text_eq name (codes "syncing")) _ _
              (λ _. record {
                sent_same = refl;
                listening_is = refl;
                member_is = refl;
                distinct = d;
              })
              (λ _.
                if_intro stays (text_eq name (codes "logs")) _ _
                  (λ _. logs-Moves new_id (parse_logs_sub_params param) c d)
                  (λ _. record {
                    sent_same = refl;
                    listening_is = refl;
                    member_is = refl;
                    distinct = d;
                  })))
      ]

  -- An id that is no member stays none when another set loses it.
  unsubscribed-Moves :
      (old_id : Text) (c : Connection)
      → Distinct c.new_heads_ids
      → Moves c
          (eth_unsubscribe old_id c).0
          c.listening
          (if text_eq old_id id then false else includes c.new_heads_ids id)
  unfolding eth_unsubscribe
  unsubscribed-Moves old_id c d = elim (Bool-cases (includes c.new_heads_ids old_id)) [
    | inl e ↦ rw e (record {
      sent_same = refl;
      listening_is = refl;
      member_is = includes-set_delete old_id c.new_heads_ids id;
      distinct = set_delete-Distinct old_id c.new_heads_ids d;
    })
    | inr e ↦
        let other : includes c.new_heads_ids id
            ≡ (if text_eq old_id id then false else includes c.new_heads_ids id) =
          not_member id old_id c.new_heads_ids e in
        rw e (
          if_intro
            (λ (p : Connection × Reply).
              Moves c p.0 c.listening
                (if text_eq old_id id then false else includes c.new_heads_ids id))
            (includes c.syncing_ids old_id) _ _
            (λ _. record { sent_same = refl; listening_is = refl; member_is = other; distinct = d })
            (λ _. record {
              sent_same = refl;
              listening_is = refl;
              member_is = other;
              distinct = d;
            }))
  ]

  heads-sent :
      (heads : List EthNewHead) (c : Connection)
      → Distinct c.new_heads_ids
      → heads_to id (emit parse to_eth_tx_hash (heads_event heads) c).sent
        ≡ heads_to id c.sent ++ (if c.listening && includes c.new_heads_ids id then heads else [])
  unfolding emit block_listener
  heads-sent heads c d =
      if_intro
        (λ x.
          heads_to id x.sent
          ≡ heads_to id c.sent
            ++ (if c.listening && includes c.new_heads_ids id then heads else []))
        c.listening (block_listener heads c) c
        (λ e. rw e (
          heads_to-append id c.sent _
          ∙ ap (λ r. heads_to id c.sent ++ r)
              (heads_to-head_notifications id c.new_heads_ids heads d)))
        (λ e. rw e (sym (append-nil _)))

  logs-sent :
      (logs : List Text) (c : Connection)
      → Distinct c.new_heads_ids
      → Moves c
          (emit parse to_eth_tx_hash (logs_event logs) c)
          c.listening
          (includes c.new_heads_ids id)
  unfolding emit logs_listener
  logs-sent logs c d =
      if_intro (λ x. Moves c x c.listening (includes c.new_heads_ids id)) c.listening
        (logs_listener parse to_eth_tx_hash logs c) c
        (λ _. record {
          sent_same =
              heads_to-append id c.sent
                (log_notifications parse to_eth_tx_hash c.logs_query_maps (map parse logs))
              ∙ ap (λ r. heads_to id c.sent ++ r)
                  (no_heads parse to_eth_tx_hash id c.logs_query_maps (map parse logs))
              ∙ append-nil _;
          listening_is = refl;
          member_is = refl;
          distinct = d;
        })
        (λ _. record { sent_same = refl; listening_is = refl; member_is = refl; distinct = d })

  heads-kept :
      (heads : List EthNewHead) (c : Connection)
      → ((emit parse to_eth_tx_hash (heads_event heads) c).listening ≡ c.listening)
        × ((emit parse to_eth_tx_hash (heads_event heads) c).new_heads_ids ≡ c.new_heads_ids)
  unfolding emit block_listener
  heads-kept heads c =
      if_intro
        (λ (x : Connection). (x.listening ≡ c.listening) × (x.new_heads_ids ≡ c.new_heads_ids))
        c.listening (block_listener heads c) c (λ _. (refl, refl)) (λ _. (refl, refl))

  moved :
      (c x : Connection) (listening member : Bool) (actions : List Action)
      → Moves c x listening member
      → heads_to id x.sent ++ due id x.listening (includes x.new_heads_ids id) actions
        ≡ heads_to id c.sent ++ due id listening member actions
  moved c x l m actions move = rw (move.sent_same, move.listening_is, move.member_is) refl

  -- For a connection whose set of ids has none twice: over any sequence of events of the emitter,
  -- subscriptions, cancellations and the close of the connection, an id is sent exactly the heads that
  -- are emitted while the connection listens and the id is subscribed to new heads, in
  -- order, each of them once.
  pub run-due :
      (actions : List Action) (c : Connection)
      → Distinct c.new_heads_ids
      → heads_to id (run parse to_eth_tx_hash actions c).sent
        ≡ heads_to id c.sent ++ due id c.listening (includes c.new_heads_ids id) actions
  unfolding due close
  run-due [] c d = sym (append-nil _)
  run-due (emitted (heads_event heads) ∷ actions) c d =
      let next = emit parse to_eth_tx_hash (heads_event heads) c in
      let (same_listening, same_ids) = heads-kept heads c in
      run-due actions next (rw same_ids d)
      ∙ rw (heads-sent heads c d, same_listening, same_ids) (append_assoc (heads_to id c.sent) _ _)
  run-due (emitted (logs_event logs) ∷ actions) c d =
      let move = logs-sent logs c d in run-due actions _ move.distinct ∙ moved c _ _ _ actions move
  run-due (subscribe name param new_id ∷ actions) c d =
      let move = subscribed-Moves name param new_id c d in
      run-due actions _ move.distinct ∙ moved c _ _ _ actions move
  run-due (unsubscribe old_id ∷ actions) c d =
      let move = unsubscribed-Moves old_id c d in
      run-due actions _ move.distinct ∙ moved c _ _ _ actions move
  run-due (closed ∷ actions) c d = run-due actions (close c) d
