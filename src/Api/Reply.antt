-- ===== src/Api/Reply.antt =====
-- pkg/api/v1/error.go, pkg/format/response.go: what a handler writes, and how it ends a request on
-- what a store returned.
use cs.Prelude.{ℕ, Option, none, some, ◌⊎◌, inl, inr, [], ◌∷◌}
use cs.Prelude.Run.{Run, ok, ◌>>=◌}
use cs.Format.{Context}
use cs.Database.LifeCycle.{external, Err, unwrap_result}

pub data ApiError : Type 0 where
  err_get_user err_get_user_id err_get_user_name err_get_user_host_events : ApiError
  err_create_user err_delete_user err_update_user_name : ApiError
  err_add_user_host_event err_remove_user_host_event : ApiError
  err_get_event err_create_event err_update_event err_delete_event : ApiError
  err_add_event_participant err_remove_event_participant : ApiError
  err_create_event_log err_get_event_logs : ApiError
  err_tx_create_event err_tx_update_event err_tx_delete_event : ApiError
  err_tx_join_event err_tx_leave_event : ApiError

-- `WriteJsonResponse(w, resp, code)`, or with `NewErrorResponse(errType, err)` for the response.
pub data Reply (A E : Type 0) : Type 0 where
  reply : ℕ → A → Reply A E
  failed : ℕ → ApiError → E → Reply A E

-- `if err != nil { …500… ; return }`, and else the response.
unfoldable pub write : {A E : Type 0} → ℕ → ApiError → A → Err E → Reply A (Err E)
write code api_error a [] = reply code a
write code api_error a (e ∷ es) = failed 500 api_error (e ∷ es)

-- The same for an operation that only reads.
unfoldable pub write_read : {R A E : Type 0} → ApiError → (R → A) → E ⊎ R → Reply A (Err E)
write_read api_error response (inl e) = failed 500 api_error (external e ∷ [])
write_read api_error response (inr r) = reply 200 (response r)

unfoldable pub write_option : {A E : Type 0} → ApiError → A → Option E → Reply A (Err E)
write_option api_error a none = reply 200 a
write_option api_error a (some e) = failed 500 api_error (external e ∷ [])

-- `database.UnwrapResult` of an operation, and what follows. When it panics, what the operation did
-- stays done.
unfoldable pub unwrapped :
    {V D R A E : Type 0}
    → ℕ
    → ApiError
    → (R → A)
    → Context V × D × R × Err E
    → Context V × D × Run (Reply A (Err E))
unwrapped code api_error response (ctx, d, r, err) =
    (ctx, d, unwrap_result (r, err) >>= λ (r', err'). ok (write code api_error (response r') err'))
