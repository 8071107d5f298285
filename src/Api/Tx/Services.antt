-- ===== src/Api/Tx/Services.antt =====
-- pkg/api/v1/tx.go, request.go, user.go, event.go, event_log.go: the services that the handlers of
-- transactions call, as handlers over stores behind a network that loses requests and responses.
-- What the encodings do is left out: a request reaches the handler as it was, and a response the
-- caller.
use cs.Prelude.{ℕ, ◌≡◌, ◌≢◌, refl, ◌⊎◌, inl, inr, [], ◌∷◌, ℤ, arith}
use cs.Prelude.Tests.{◌==◌, if◌then◌else◌, Key}
use cs.Prelude.Map.{Map}
use cs.Prelude.Run.{Run, ok, panic, blocked}
use cs.Format.{Context}
use cs.Database.LifeCycle.{Err, Pool, TxHookMap, start, unwrap_result}
use cs.Database.Sql.{Table, on_table}
use cs.Database.Sql.Committed.{HooksLeaveRows, Done, start-on_table}
use cs.Api.Reply.{Reply, reply, failed, ApiError, unwrapped, write, write_read}

-- What happens to a call on the network.
pub data Fault (F : Type 0) : Type 0 where
  delivered : Fault F
  request_lost : F → Fault F
  response_lost : F → Fault F

-- The errors of `Request` for a wrong status code and for a connection that a panic closed, and the
-- faults to come.
pub record Network (N F : Type 0) : Type 0 where
  pub next_fault : N → N × Fault F
  pub bad_code : ℕ → F
  pub closed : F

module _ {N F : Type 0} (network : Network N F) where
  -- `if res.StatusCode != code { …error… }`
  unfoldable pub accept : {A E : Type 0} → ℕ → Run (Reply A E) → F ⊎ A
  accept code (ok (reply c a)) = if c == code then inr a else inl (network.bad_code c)
  accept code (ok (failed c api_error e)) = inl (network.bad_code c)
  accept code panic = inl network.closed
  accept code blocked = inl network.closed

  -- A request whose handler takes the database from `d` to `d'`.
  unfoldable pub deliver : {D A E : Type 0} → ℕ → Fault F → D → D → Run (Reply A E) → D × (F ⊎ A)
  deliver code (request_lost f) d d' answered = (d, inl f)
  deliver code (response_lost f) d d' answered = (d', inl f)
  deliver code delivered d d' answered = (d', accept code answered)

  unfoldable pub serve :
      {V D A E : Type 0} → ℕ → (D → Context V × D × Run (Reply A E)) → N × D → (N × D) × (F ⊎ A)
  serve code handler (net, d) =
      let (net', fault) = network.next_fault net in
      let (_, d', answered) = handler d in
      let (d'', result) = deliver code fault d d' answered in ((net', d''), result)

  deliver-Did :
      {V D R A E : Type 0} (Did : D → R → Type 0) (code : ℕ) (api_error : ApiError)
      (response : R → A) (fault : Fault F) (ctx : Context V) (d d' : D) (r : R) (err : Err E)
      → ((d' ≡ d) × (err ≢ [])) ⊎ Did d' r
      → let result =
          deliver code fault d d' (unwrapped code api_error response (ctx, d', r, err)).2 in
        ((a : A) × (result.1 ≡ inr a) × ((r : R) × (a ≡ response r) × Did result.0 r))
        ⊎ ((f : F) × (result.1 ≡ inl f) × ((result.0 ≡ d) ⊎ ((r : R) × Did result.0 r)))
  unfolding deliver accept unwrapped write unwrap_result
  deliver-Did Did code api_error response (request_lost f) ctx d d' r err h =
      inr (f, refl, inl refl)
  deliver-Did Did code api_error response (response_lost f) ctx d d' r err h = elim h [
    | inl (same, _) ↦ inr (f, refl, inl same)
    | inr did ↦ inr (f, refl, inr (r, did))
  ]
  deliver-Did Did code api_error response delivered ctx d d' r [] h = elim h [
    | inl (_, bad) ↦ absurd (bad refl)
    | inr did ↦ inl (response r, ground arith, (r, refl, did))
  ]
  deliver-Did Did code api_error response delivered ctx d d' r (e ∷ es) h = elim h [
    | inl (same, _) ↦ inr (network.closed, refl, inl same)
    | inr did ↦ inr (network.closed, refl, inr (r, did))
  ]

module _ {N F : Type 0} (network : Network N F) where
  -- A handler that only reads: a response is that of what it has read.
  pub deliver-read :
      {D R A E : Type 0} (api_error : ApiError) (response : R → A) (fault : Fault F) (d : D)
      (read : E ⊎ R)
      → let result = deliver network 200 fault d d (ok (write_read api_error response read)) in
        ((a : A) × (result.1 ≡ inr a)
          × ((r : R) × (read ≡ inr r) × (a ≡ response r))
          × (result.0 ≡ d))
        ⊎ ((f : F) × (result.1 ≡ inl f) × (result.0 ≡ d))
  unfolding deliver accept write_read
  deliver-read api_error response (request_lost f) d read = inr (f, refl, refl)
  deliver-read api_error response (response_lost f) d read = inr (f, refl, refl)
  deliver-read api_error response delivered d (inl e) = inr (network.bad_code 500, refl, refl)
  deliver-read api_error response delivered d (inr r) =
      inl (response r, refl, (r, refl, refl), refl)

-- A call of a service has an effect on the rows of its table: all of it if it returns, all or nothing
-- if it fails.
abbrev pub HasRowsEffect :
    {N D T F B : Type 0}
    → Table D T
    → (N × D → (N × D) × (F ⊎ B))
    → (B → Map ℤ T → Map ℤ T → Type 0)
    → Type 0
HasRowsEffect {N} {D} {T} {F} {B} table call effect =
    (s : N × D)
    → ((b : B) × ((call s).1 ≡ inr b) × effect b (table.rows s.1) (table.rows (call s).0.1))
      ⊎ ((f : F) × ((call s).1 ≡ inl f)
          × (((call s).0.1 ≡ s.1)
              ⊎ ((b : B) × effect b (table.rows s.1) (table.rows (call s).0.1))))

-- The statements `body x`, for some `x`, have been done, and `b` is the response to their result.
abbrev pub Statements :
    {T R E B X : Type 0}
    → (R → B)
    → (X → Map ℤ T → Map ℤ T × R × Err E)
    → B
    → Map ℤ T
    → Map ℤ T
    → Type 0
Statements {R} {X} response body b m m' =
    (x : X) × (r : R) × (b ≡ response r) × Done (body x) m m' r

module _ {N F : Type 0} (network : Network N F) {A V D T E R B X : Type 0} ⦃k : Key A⦄
    (pool : Pool D E) (new_result : R → V) (zero : R) (hooks : TxHookMap A V D E) (api : A)
    (table : Table D T) where
  -- A handler around one operation on a table; `pick` is what the statements take from the database.
  pub serve-Statements :
      (pick : D → X) (body : X → Map ℤ T → Map ℤ T × R × Err E) (code : ℕ) (api_error : ApiError)
      (response : R → B) (ctx : Context V)
      → HooksLeaveRows hooks api table
      → HasRowsEffect table
          (serve network code (λ d.
            unwrapped code api_error response
              (start pool new_result zero hooks api (on_table table (body (pick d))) ctx d)))
          (Statements response body)
  unfolding serve unwrapped start
  serve-Statements pick body code api_error response ctx leaves (net, d) =
      let ran = start pool new_result zero hooks api (on_table table (body (pick d))) ctx d in
      elim (deliver-Did network (λ d' r. Done (body (pick d)) (table.rows d) (table.rows d') r) code
        api_error response (network.next_fault net).1 ran.0 d ran.1 ran.2 ran.3
        (start-on_table pool new_result zero hooks api table (body (pick d)) ctx d leaves)) [
          | inl (b, good, (r, is, did)) ↦ inl (b, good, (pick d, r, is, did))
          | inr (f, bad, inl same) ↦ inr (f, bad, inl same)
          | inr (f, bad, inr (r, did)) ↦ inr (f, bad, inr (response r, (pick d, r, refl, did)))
        ]
