-- ===== src/Middleware/Sender.antt =====
-- pkg/middleware/tx.go, createTxExecutor: the coordinator gives each receiver of a new transaction
-- the next timestamp of its clock, records the executor, and moves the sender's clocks on.
pub mod Stamps
pub mod Clocks
pub mod Create
pub mod Recorded
use cs.Prelude.{ℕ, ◌+◌, ◌%◌, ◌^◌, String, Option, none, some, List, [], ◌∷◌, ◌++◌}
use cs.Prelude.Tests.{string_key}
use cs.Prelude.Map.{Map, lookup, insert}
use cs.Prelude.Run.{Run, ok, panic, blocked, ◌>>=◌}
use cs.Cc.Partition.{TxPartitionManager, lock, unlock}
use cs.Cc.Clock.{TxClockManager}
use cs.Cc.Clock
use cs.Cc.Context.{TxExecutorContext}

-- The loop over the receivers, from the map and the list that it has built.
unfoldable pub stamp :
    TxClockManager → ℕ → List String → Map String ℕ → List ℕ → Run (Map String ℕ × List ℕ)
stamp mgr partition [] ts_map timestamps = ok (ts_map, timestamps)
stamp mgr partition (receiver ∷ receivers) ts_map timestamps = elim (lookup receiver ts_map) [
  | none ↦ Clock.get mgr partition receiver >>= λ ts.
      stamp mgr partition receivers (insert receiver ((ts + 1) % 2 ^ 64) ts_map)
        (timestamps ++ ((ts + 1) % 2 ^ 64) ∷ [])
  | some ts ↦
      stamp mgr partition receivers (insert receiver ((ts + 1) % 2 ^ 64) ts_map)
        (timestamps ++ ((ts + 1) % 2 ^ 64) ∷ [])
]

-- `for service, newTs := range tsMap { clockMgr.Set(…) }`; the keys are distinct, so the order does
-- not matter.
unfoldable pub set_clocks : TxClockManager → ℕ → Map String ℕ → Run TxClockManager
set_clocks mgr partition [] = ok mgr
set_clocks mgr partition ((service, new_ts) ∷ ts_map) =
    Clock.set mgr partition service new_ts >>= λ mgr'. set_clocks mgr' partition ts_map

-- The statements that the function sends to the database, whose state is `W`; each may fail with an
-- error of `E`. `marshal` is json.Marshal on the executor's context.
pub record SenderDb (W V E : Type 0) : Type 0 where
  pub marshal : TxExecutorContext V → Option E
  pub begin : W → W × Option E
  pub insert_executor : TxExecutorContext V → W → W × Option E × ℕ
  pub upsert_clock : ℕ → String → ℕ → W → W × Option E
  pub commit : W → W × Option E
  pub roll_back : W → W × Option E

-- What the function changes: the sender's clocks, the context and the database.
pub record Sender (W V : Type 0) : Type 0 where
  pub clock_mgr : TxClockManager
  pub exec_ctx : TxExecutorContext V
  pub world : W

module _ {W V E : Type 0} (db : SenderDb W V E) where
  -- The batch: the first statement that fails ends it.
  unfoldable pub send_batch : ℕ → Map String ℕ → W → W × Option E
  send_batch partition [] w = (w, none)
  send_batch partition ((service, new_ts) ∷ ts_map) w =
      let (w', err) = db.upsert_clock partition service new_ts w in
      elim err [ some e ↦ (w', some e) | none ↦ send_batch partition ts_map w' ]

  -- `commitFunc` of `BeginTx`.
  unfoldable pub commit_func : Option E → W → W × Option (List E)
  commit_func none w =
      let (w', err) = db.commit w in (w', elim err [ none ↦ none | some e ↦ some (e ∷ []) ])
  commit_func (some cause) w =
      let (w', err) = db.roll_back w in
      (w', elim err [ none ↦ some (cause ∷ []) | some e ↦ some (e ∷ cause ∷ []) ])

  -- The statements after `BeginTx`, and the new id of the executor.
  unfoldable pub statements : ℕ → TxExecutorContext V → Map String ℕ → W → W × Option E × ℕ
  statements partition ctx ts_map w =
      let (w', err, id) = db.insert_executor ctx w in
      elim err [
        | some e ↦ (w', some e, ctx.exec_id)
        | none ↦ let (sent, err') = send_batch partition ts_map w' in (sent, err', id)
      ]

  -- The deferred function: commit, and if that succeeds move the clocks on.
  unfoldable pub close :
      ℕ → Map String ℕ → Sender W V → W × Option E × ℕ → Run (Sender W V × Option (List E))
  close partition ts_map s (w, err, id) =
      let (w', err') = commit_func err w in
      let s' : Sender W V = record s {
        exec_ctx = record s.exec_ctx { exec_id = id };
        world = w';
      } in
      elim err' [
        | some e ↦ ok (s', some e)
        | none ↦ set_clocks s.clock_mgr partition ts_map >>= λ clocks.
            ok (record s' { clock_mgr = clocks }, none)
      ]

  -- After the timestamps have been taken.
  unfoldable pub record_executor :
      ℕ → Map String ℕ → Sender W V → Run (Sender W V × Option (List E))
  record_executor partition ts_map s = elim (db.marshal s.exec_ctx) [
    | some e ↦ ok (s, some (e ∷ []))
    | none ↦
        let (w, err) = db.begin s.world in
        elim err [
          | some e ↦ ok (record s { world = w }, some (e ∷ []))
          | none ↦ close partition ts_map s (statements partition s.exec_ctx ts_map w)
        ]
  ]

  -- The body under the partition's mutex.
  unfoldable pub create_body : List String → Sender W V → Run (Sender W V × Option (List E))
  create_body receivers s =
      stamp s.clock_mgr s.exec_ctx.ctrl_ctx.partition receivers [] [] >>= λ (ts_map, timestamps).
      record_executor s.exec_ctx.ctrl_ctx.partition ts_map (record s {
        exec_ctx = record s.exec_ctx { receivers = receivers; timestamps = timestamps };
      })

  unfoldable pub create_tx_executor :
      TxPartitionManager
      → List String
      → Sender W V
      → Run (TxPartitionManager × Sender W V × Option (List E))
  create_tx_executor prt_mgr receivers s = lock prt_mgr s.exec_ctx.ctrl_ctx.partition >>= λ held.
      create_body receivers s >>= λ (s', err).
      unlock held s.exec_ctx.ctrl_ctx.partition >>= λ free. ok (free, s', err)
