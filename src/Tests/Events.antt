-- ===== src/Tests/Events.antt =====
-- pkg/database/event.go, with a database that is one table and no hooks.
use cs.Prelude.{◌≡◌, refl, inr, [], ◌∷◌, pos, int_key, ℕ_discrete}
use cs.Prelude.Ints.{ℤ_discrete}
use cs.Prelude.Tests.{nat_key, string_key}
use cs.Prelude.Map.{lookup, insert}
use cs.Format.{Context, get_trace_context, set_trace_context}
use cs.Format
use cs.Database.LifeCycle.{
  hooks_of, run_hooks, run_after_hooks, keep_result, then_after, in_tx, with_tx, then_end, start,
  finish_tx, set_result,
}
use cs.Database.Sql.{query_row, exec, on_table}
use cs.Database.User.{user_api_key}
use cs.Database.Event
use cs.Database.Event.{Event, EventRow, EventStoreApi, Time, event_api_key, event_api_discrete}
use cs.Database.Event.Merge.{updated, update_event-get_event}
use cs.Database.EventLog.{log_api_key}
use cs.Tests.Stores.{whole, works, pool, no_hooks, nothing, ctx, no_hooks-leave}

abbrev pub party : Event
party = record {
  id = pos 0;
  name = "party";
  info = "";
  host_id = pos 0;
  start_at = 5;
  end_at = 9;
  location = "hall";
  participants = pos 3 ∷ [];
}

abbrev pub same_time : Time → Time
same_time t = t

abbrev party_row : EventRow
party_row = record {
  event_name = "party";
  event_info = "";
  host_id = pos 0;
  start_at = 5;
  end_at = 9;
  location = "hall";
  participants = pos 3 ∷ [];
}

abbrev pub events : Event.Events
events = (pos 0, party_row) ∷ []

-- A later end, and another location.
abbrev later : Event
later = record party { name = ""; start_at = 0; end_at = 12; location = "yard" }

later_fine :
    (Event.update_event pool nothing no_hooks whole works same_time later ctx events).3 ≡ []
unfolding Event.update_event start run_hooks hooks_of lookup then_end with_tx finish_tx in_tx
    then_after keep_result get_trace_context set_trace_context on_table run_after_hooks set_result
    Format.set insert Event.update_event_tx query_row exec ℤ_discrete ℕ_discrete event_api_discrete
later_fine = refl

party_there : Event.get_event works events (pos 0) ≡ inr party
unfolding Event.get_event Event.event_of_row query_row lookup ℤ_discrete ℕ_discrete
party_there = refl

update_event-get_event_example :
    (Event.get_event works
        (Event.update_event pool nothing no_hooks whole works same_time later ctx events).1
        (pos 0)
      ≡ inr (updated same_time party later))
    × (Event.get_event works
          (Event.update_event pool nothing no_hooks whole works same_time later ctx events).1
          (pos 1)
        ≡ Event.get_event works events (pos 1))
update_event-get_event_example =
    update_event-get_event pool nothing no_hooks whole works same_time later party ctx events
      (pos 1) (no_hooks-leave whole _) (λ m. refl) party_there refl refl later_fine (λ h. cc)
