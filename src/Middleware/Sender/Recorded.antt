-- ===== src/Middleware/Sender/Recorded.antt =====
-- pkg/middleware/tx.go, createTxExecutor: what has been recorded if there are no errors.
use cs.Prelude.{
  ℕ, zero, suc, ◌+◌, String, ◌≡◌, refl, ◌∙◌, ap, sym, ite, ℕ_discrete, arith, inl, inr, ◌⊎◌, Option,
  none, some, List, [], ◌∷◌,
}
use cs.Prelude.Tests.{string_key, Option-cases}
use cs.Prelude.Map.{Map, lookup, Unique}
use cs.Prelude.Run.{Run, ok}
use cs.Cc.Clock.{TxClockManager}
use cs.Cc.Clock
use cs.Cc.Context.{TxExecutorContext}
use cs.Middleware.Sender.{
  send_batch, SenderDb, Sender, record_executor, close, commit_func, statements, set_clocks,
}
use cs.Middleware.Sender.Stamps.{count, entry}
use cs.Middleware.Sender.Clocks.{written}

-- The clocks after `receivers` have been stamped: each has moved by the times that it stands there.
abbrev pub Moved : TxClockManager → ℕ → (String → ℕ) → List String → TxClockManager → Type 0
Moved mgr p clock receivers mgr' =
    (q : ℕ) (s : String)
    → Clock.get mgr' q s
      ≡ ite (ℕ_discrete q p) (ok (clock s + count s receivers)) (Clock.get mgr q s)

pub entry-written : (n : ℕ) (c : ℕ) (o : Option ℕ) → o ≡ entry n c → written o (ok c) ≡ ok (c + n)
entry-written zero c o e = rw e (ap ok (omega arith))
entry-written (suc n) c o e = rw e refl

module _ {W V E : Type 0} (db : SenderDb W V E) where
  -- The clocks of a batch were all written, one statement after the other.
  unfoldable pub AllSent : ℕ → Map String ℕ → W → W → Type 0
  AllSent p [] w w' = w ≡ w'
  AllSent p ((service, ts) ∷ m) w w' =
      (mid : W) × (db.upsert_clock p service ts w ≡ (mid, none)) × AllSent p m mid w'

  -- The executor and the clocks of `m` have been recorded: the context can be marshalled, and Begin,
  -- the insertion, which returned `id`, the statement of each clock, and Commit have run in this
  -- order, each without an error.
  abbrev pub Written : ℕ → Map String ℕ → TxExecutorContext V → W → W → ℕ → Type 0
  Written p m ctx w w' id =
      (begun inserted sent : W) × (db.marshal ctx ≡ none)
      × (db.begin w ≡ (begun, none))
      × (db.insert_executor ctx begun ≡ (inserted, none, id))
      × AllSent p m inserted sent
      × (db.commit sent ≡ (w', none))

  -- As above, with one clock for each receiver, on its last timestamp.
  abbrev pub Recorded : ℕ → (String → ℕ) → List String → TxExecutorContext V → W → W → ℕ → Type 0
  Recorded p clock receivers ctx w w' id =
      (m : Map String ℕ) × ((r : String) → lookup r m ≡ entry (count r receivers) (clock r))
      × Unique m
      × Written p m ctx w w' id

  -- The context that is recorded has the receivers and the timestamps, and not yet the id.
  abbrev pub stamped_ctx : Sender W V → Sender W V → TxExecutorContext V
  stamped_ctx s s' = record s.exec_ctx {
    receivers = s'.exec_ctx.receivers;
    timestamps = s'.exec_ctx.timestamps;
  }

  -- With errors the clocks are as before; without, they have moved and all has been recorded.
  abbrev pub Clocks :
      ℕ → (String → ℕ) → List String → Sender W V → Sender W V → Option (List E) → Type 0
  Clocks p clock receivers s s' none =
      Moved s.clock_mgr p clock receivers s'.clock_mgr
      × Recorded p clock receivers (stamped_ctx s s') s.world s'.world s'.exec_ctx.exec_id
  Clocks p clock receivers s s' (some errs) = s'.clock_mgr ≡ s.clock_mgr

  -- A way out of the part after the timestamps; without errors there is `Good`.
  abbrev Out :
      TxClockManager
      → (Sender W V → Type 0)
      → Sender W V
      → Run (Sender W V × Option (List E))
      → Type 0
  Out mgr' Good s run =
      (s' : Sender W V) × (err : Option (List E)) × (run ≡ ok (s', err))
      × (s'.exec_ctx.receivers ≡ s.exec_ctx.receivers)
      × (s'.exec_ctx.timestamps ≡ s.exec_ctx.timestamps)
      × ((err ≡ none) × (s'.clock_mgr ≡ mgr') × Good s'
          ⊎ ((es : List E) × (err ≡ some es) × (s'.clock_mgr ≡ s.clock_mgr)))

  commit_func-none :
      (err : Option E) (w : W)
      → (commit_func db err w).1 ≡ none
      → (err ≡ none) × (db.commit w ≡ ((commit_func db err w).0, none))
  unfolding commit_func
  commit_func-none none w fine = elim (Option-cases (db.commit w).1) [
    | inl good ↦ (refl, ap (λ e. ((db.commit w).0, e)) good)
    | inr (e, bad) ↦ absurd (ground (arith, fine, bad))
  ]
  commit_func-none (some cause) w fine = elim (Option-cases (db.roll_back w).1) [
    | inl good ↦ absurd (ground (arith, fine, good))
    | inr (e, bad) ↦ absurd (ground (arith, fine, bad))
  ]

  send_batch-AllSent :
      (p : ℕ) (m : Map String ℕ) (w : W)
      → (send_batch db p m w).1 ≡ none
      → AllSent p m w (send_batch db p m w).0
  unfolding send_batch AllSent
  send_batch-AllSent p [] w fine = refl
  send_batch-AllSent p ((service, ts) ∷ m) w fine =
      let put = db.upsert_clock p service ts w in
      elim (Option-cases put.1) [
        | inl good ↦
            let rest = send_batch-AllSent p m put.0 (ground (arith, fine, good)) in
            (put.0, ap (λ e. (put.0, e)) good, rw (good, send_batch) rest)
        | inr (e, bad) ↦ absurd (ground (arith, fine, bad))
      ]

  statements-AllSent :
      (p : ℕ) (ctx : TxExecutorContext V) (m : Map String ℕ) (w : W)
      → (statements db p ctx m w).1 ≡ none
      → (inserted : W) × (db.insert_executor ctx w ≡ (inserted, none, (statements db p ctx m w).2))
        × AllSent p m inserted (statements db p ctx m w).0
  unfolding statements
  statements-AllSent p ctx m w fine =
      let put = db.insert_executor ctx w in
      elim (Option-cases put.1) [
        | inl good ↦
            let sent = send_batch-AllSent p m put.0 (ground (arith, fine, good)) in
            (put.0, ground (arith, good), rw (good, statements) sent)
        | inr (e, bad) ↦ absurd (ground (arith, fine, bad))
      ]

  -- What was run before the commit had no error, and the commit had none.
  abbrev Closed : W × Option E × ℕ → Sender W V → Type 0
  Closed ran s' =
      (ran.1 ≡ none) × (db.commit ran.0 ≡ (s'.world, none)) × (s'.exec_ctx.exec_id ≡ ran.2)

  close_lem :
      (p : ℕ) (m : Map String ℕ) (s : Sender W V) (ran : W × Option E × ℕ)
      → (mgr' : TxClockManager) → set_clocks s.clock_mgr p m ≡ ok mgr'
      → Out mgr' (Closed ran) s (close db p m s ran)
  unfolding close
  close_lem p m s (w, err, id) mgr' e = elim (Option-cases (commit_func db err w).1) [
    | inl fine ↦
        let (good, committed) = commit_func-none err w fine in
        (
          record closed { clock_mgr = mgr' },
          none,
          rw (fine, close, e) refl,
          refl,
          refl,
          inl (refl, refl, (good, committed, refl)),
        )
    | inr (es, bad) ↦ (closed, some es, rw (bad, close) refl, refl, refl, inr (es, refl, refl))
  ]
    where
      closed : Sender W V
      closed = record s {
        exec_ctx = record s.exec_ctx { exec_id = id };
        world = (commit_func db err w).0;
      }

  -- If all before the commit ran without an error, then all has been recorded.
  Closed-Written :
      (p : ℕ) (m : Map String ℕ) (s s' : Sender W V)
      → db.marshal s.exec_ctx ≡ none
      → (db.begin s.world).1 ≡ none
      → Closed (statements db p s.exec_ctx m (db.begin s.world).0) s'
      → Written p m s.exec_ctx s.world s'.world s'.exec_ctx.exec_id
  Closed-Written p m s s' fine begun (good, committed, same) =
      let w = (db.begin s.world).0 in
      let ran = statements db p s.exec_ctx m w in
      let (inserted, put, sent) = statements-AllSent p s.exec_ctx m w good in
      (
        w,
        inserted,
        ran.0,
        fine,
        ap (λ e. (w, e)) begun,
        put ∙ ap (λ id. (inserted, none, id)) (sym same),
        sent,
        committed,
      )

  pub record_executor_lem :
      (p : ℕ) (m : Map String ℕ) (s : Sender W V)
      → (mgr' : TxClockManager) → set_clocks s.clock_mgr p m ≡ ok mgr'
      → Out mgr'
          (λ s'. Written p m s.exec_ctx s.world s'.world s'.exec_ctx.exec_id)
          s
          (record_executor db p m s)
  unfolding record_executor
  record_executor_lem p m s mgr' e = elim (Option-cases (db.marshal s.exec_ctx)) [
    | inr (bad, e') ↦
        (s, some (bad ∷ []), rw (e', record_executor) refl, refl, refl, inr (bad ∷ [], refl, refl))
    | inl fine ↦ elim (Option-cases (db.begin s.world).1) [
      | inr (bad, e') ↦ (
        record s { world = (db.begin s.world).0 },
        some (bad ∷ []),
        rw (fine, e', record_executor) refl,
        refl,
        refl,
        inr (bad ∷ [], refl, refl),
      )
      | inl begun ↦
          let (s', err, ran, recs, ts, way) =
            close_lem p m s (statements db p s.exec_ctx m (db.begin s.world).0) mgr' e in
          (
            s',
            err,
            rw (fine, begun, record_executor) ran,
            recs,
            ts,
            elim way [
              | inl (none_here, moved, closed) ↦
                  inl (none_here, moved, Closed-Written p m s s' fine begun closed)
              | inr failed ↦ inr failed
            ],
          )
    ]
  ]
