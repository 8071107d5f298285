-- ===== src/Middleware/Sender/Create.antt =====
-- pkg/middleware/tx.go, createTxExecutor: the whole function, on each of its ways out.
use cs.Prelude.{
  ℕ, ◌+◌, ◌^◌, ◌<◌, String, ◌≡◌, refl, ◌∙◌, ap, sym, arith, inl, inr, ◌⊎◌, false, Option, none,
  some, List, [],
}
use cs.Prelude.Tests.{string_key}
use mathlib.Core.Path.{subst}
use cs.Prelude.Map.{lookup}
use cs.Prelude.Lists.{length, get_elem?}
use cs.Prelude.Run.{ok}
use cs.Cc.Partition.{TxPartitionManager}
use cs.Cc.Partition.Bounds.{lock_held}
use cs.Cc.Clock.{TxClockManager}
use cs.Cc.Clock
use cs.Cc.Clock.Cells.{get-HasRow}
use cs.Middleware.Sender.{SenderDb, Sender, create_tx_executor, create_body}
use cs.Middleware.Sender.Stamps.{count, expected, entry, stamp_lem}
use cs.Middleware.Sender.Clocks.{set_clocks_lem}
use cs.Middleware.Sender.Recorded.{
  Moved, entry-written, Written, Recorded, stamped_ctx, Clocks, record_executor_lem,
}

module _ {W V E : Type 0} (db : SenderDb W V E) where
  way-Clocks :
      (p : ℕ) (clock : String → ℕ) (receivers : List String) (s s' : Sender W V)
      → (err : Option (List E)) (mgr' : TxClockManager) → Moved s.clock_mgr p clock receivers mgr'
      → (err ≡ none)
          × (s'.clock_mgr ≡ mgr')
          × Recorded db p clock receivers (stamped_ctx db s s') s.world s'.world s'.exec_ctx.exec_id
        ⊎ ((es : List E) × (err ≡ some es) × (s'.clock_mgr ≡ s.clock_mgr))
      → Clocks db p clock receivers s s' err
  way-Clocks p clock receivers s s' none mgr' moved (inl (e, same, recorded)) =
      (rw same moved, recorded)
  way-Clocks p clock receivers s s' none mgr' moved (inr (es, e, same)) = cc
  way-Clocks p clock receivers s s' (some errs) mgr' moved (inl (e, same, recorded)) = cc
  way-Clocks p clock receivers s s' (some errs) mgr' moved (inr (es, e, same)) = same

  -- If the partition's mutex is free, the clocks can be read, and no timestamp would pass 2^64, then
  -- creating an executor returns and gives the mutex back. The executor then has the receivers,
  -- and for each of them the timestamp after its clock, one more for each time that it stands
  -- earlier in the list. If there are errors, the clocks are as before. If there are none, then the
  -- context with the receivers and timestamps could be marshalled, and Begin, the insertion of the
  -- executor, a statement for the clock of each receiver, with its last timestamp, and Commit ran
  -- in this order, none failed, and the id of the executor is that of the insertion; and each
  -- clock has moved by the number of times that its service is a receiver, so that the next
  -- timestamps follow on the last ones without a gap.
  pub create_lem :
      (prt_mgr : TxPartitionManager) (receivers : List String) (s : Sender W V) (clock : String → ℕ)
      → get_elem? prt_mgr.locks s.exec_ctx.ctrl_ctx.partition ≡ some false
      → ((r : String) → Clock.get s.clock_mgr s.exec_ctx.ctrl_ctx.partition r ≡ ok (clock r))
      → ((r : String) → clock r + length receivers < 2 ^ 64)
      → (s' : Sender W V) × (err : Option (List E)) × (create_tx_executor db prt_mgr receivers s
          ≡ ok (prt_mgr, s', err))
        × (s'.exec_ctx.receivers ≡ receivers)
        × (s'.exec_ctx.timestamps ≡ expected clock [] receivers)
        × Clocks db s.exec_ctx.ctrl_ctx.partition clock receivers s s' err
  unfolding create_tx_executor create_body lookup
  create_lem prt_mgr receivers s clock free reads fits =
      let p = s.exec_ctx.ctrl_ctx.partition in
      let (m, stamped, seen, u') =
        stamp_lem s.clock_mgr p clock reads receivers [] [] [] (λ r. omega (arith, fits r))
          (λ r. refl) tt in
      let row = get-HasRow s.clock_mgr p "" (clock "") (reads "") in
      let (mgr', sets, reads') = set_clocks_lem s.clock_mgr p m row u' in
      let (s', err, ran, recs, ts, way) =
        record_executor_lem db p m
          (record s {
            exec_ctx = record s.exec_ctx {
              receivers = receivers;
              timestamps = expected clock [] receivers;
            };
          })
          mgr' sets in
      let (held, locks, unlocks) = lock_held prt_mgr p free in
      (
        s',
        err,
        rw (locks, stamped, ran, unlocks) refl,
        recs,
        ts,
        way-Clocks p clock receivers s s' err mgr'
            (λ q r. ground (
              arith,
              reads' q r,
              reads r,
              entry-written (count r receivers) (clock r) (lookup r m)
                  (seen r ∙ ap (λ n. entry n (clock r)) (omega arith)),
            ))
            (elim way [
              | inl (none_here, moved, kept) ↦ inl (
                none_here,
                moved,
                (
                  m,
                  λ r. seen r ∙ ap (λ n. entry n (clock r)) (omega arith),
                  u',
                  subst (λ c. Written db p m c s.world s'.world s'.exec_ctx.exec_id)
                      (ap
                          (λ l. record s.exec_ctx {
                            receivers = l;
                            timestamps = expected clock [] receivers;
                          })
                          (sym recs)
                        ∙ ap
                            (λ l. record s.exec_ctx {
                              receivers = s'.exec_ctx.receivers;
                              timestamps = l;
                            })
                            (sym ts))
                      kept,
                ),
              )
              | inr failed ↦ inr failed
            ]),
      )
