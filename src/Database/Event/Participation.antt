-- ===== src/Database/Event/Participation.antt =====
-- pkg/database/event.go: the events and their participants, as a relation of ids, under AddParticipant and
-- RemoveParticipant.
use cs.Prelude.{Bool, true, false, ◌≡◌, refl, inl, inr, [], ℤ, int_key, arith}
use cs.Format.{Context}
use cs.Database.LifeCycle.{TxHookMap, Pool}
use cs.Database.Sql.{Nil, nil, Sql, Table, query_row}
use cs.Database.Sql.Column.{holds, with_pair, written-add_id, written-delete_id}
use cs.Prelude.Tests.{Sum-cases}
use cs.Database.Sql.Committed.{HooksLeaveRows}
use cs.Database.Sql.Pairs.{PutsPair, start-PutsPair}
use cs.Database.Event.{
  EventStoreApi, api_add_participant, api_remove_participant, EventRow, Events, add_participant_tx,
  remove_participant_tx, set_participants, add_participant, remove_participant, event_api_key,
}

-- A user joined an event if it is among its host events.
abbrev pub joined : Events → ℤ → ℤ → Bool
joined = holds (λ row. row.participants)

module _ {E : Type 0} (sql : Sql EventRow E) where
  pub add_participant_tx-joined :
      (event_id participant_id u e : ℤ) (events : Events)
      → (add_participant_tx sql event_id participant_id events).2 ≡ []
      → joined (add_participant_tx sql event_id participant_id events).0 u e
        ≡ with_pair (joined events) event_id participant_id true u e
  unfolding add_participant_tx set_participants
  add_participant_tx-joined event_id participant_id u e events fine =
      elim (Sum-cases (query_row sql event_id (λ row. row.participants) events)) [
        | inl (err, bad) ↦ absurd (ground (arith, fine, bad))
        | inr (ids, found) ↦
            let written =
              written-add_id (λ row. row.participants)
                (λ ids row. record row { participants = ids }) (λ ids row. refl) sql event_id
                participant_id ids events u e found in
            ground (arith, fine, found, written)
      ]

  pub remove_participant_tx-joined :
      (event_id participant_id u e : ℤ) (events : Events)
      → (remove_participant_tx sql event_id participant_id events).2 ≡ []
      → joined (remove_participant_tx sql event_id participant_id events).0 u e
        ≡ with_pair (joined events) event_id participant_id false u e
  unfolding remove_participant_tx set_participants
  remove_participant_tx-joined event_id participant_id u e events fine =
      elim (Sum-cases (query_row sql event_id (λ row. row.participants) events)) [
        | inl (err, bad) ↦ absurd (ground (arith, fine, bad))
        | inr (ids, found) ↦
            let written =
              written-delete_id (λ row. row.participants)
                (λ ids row. record row { participants = ids }) (λ ids row. refl) sql event_id
                participant_id ids events u e found in
            ground (arith, fine, found, written)
      ]

module _ {V D E : Type 0} (pool : Pool D E) (nil_result : Nil → V)
    (hooks : TxHookMap EventStoreApi V D E) (table : Table D EventRow) (sql : Sql EventRow E) where
  -- Let no hook of the two operations change the rows of the table of events. Then in the relation of
  -- events to their participants, AddParticipant puts the pair of the event and the participant in,
  -- and RemoveParticipant takes it out; both change no other pair. Where an operation does not do so,
  -- it leaves the database as it was and returns an error.
  pub participants-PutsPair :
      (event_id participant_id : ℤ) (ctx : Context V) (d : D)
      → HooksLeaveRows hooks api_add_participant table
      → HooksLeaveRows hooks api_remove_participant table
      → let added = add_participant pool nil_result hooks table sql event_id participant_id ctx d in
        let removed =
          remove_participant pool nil_result hooks table sql event_id participant_id ctx d in
        PutsPair table (λ row. row.participants) event_id participant_id true d added.1 added.3
        × PutsPair table
            (λ row. row.participants)
            event_id
            participant_id
            false
            d
            removed.1
            removed.3
  unfolding add_participant remove_participant
  participants-PutsPair event_id participant_id ctx d leaves leaves' = (
    start-PutsPair pool nil_result nil hooks api_add_participant table (λ row. row.participants)
        (add_participant_tx sql event_id participant_id) event_id participant_id true
        (λ m u e. add_participant_tx-joined sql event_id participant_id u e m) ctx d leaves,
    start-PutsPair pool nil_result nil hooks api_remove_participant table (λ row. row.participants)
        (remove_participant_tx sql event_id participant_id) event_id participant_id false
        (λ m u e. remove_participant_tx-joined sql event_id participant_id u e m) ctx d leaves',
  )
