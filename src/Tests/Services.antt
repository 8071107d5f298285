-- ===== src/Tests/Services.antt =====
-- pkg/api/v1/tx.go, with three services on a network that loses some messages, and requests to the
-- handlers.
use cs.Prelude.{String, Option, none, some, List, [], ◌∷◌, ℤ, pos, int_key}
use cs.Prelude.Map.{Map}
use cs.Database.User.{UserRow, user_api_key}
use cs.Database.Event.{EventRow, event_api_key}
use cs.Database.EventLog.{LogRow, log_api_key}
use cs.Api.Tx.{
  RequestTxCreateEvent, RequestTxUpdateEvent, RequestTxDeleteEvent, RequestTxJoinEvent,
  RequestTxLeaveEvent,
}
use cs.Api.Tx.Services.{Fault, delivered, response_lost, Network}
use cs.Api.Tx.World.{UserService, EventService, EventLogService, World, peers}
use cs.Api.Tx.{Peers}
use cs.Tests.Stores.{whole, works, pool, no_hooks, nothing, ctx, no_hooks-leave}
use cs.Tests.Events.{same_time}

-- The faults to come; after them all is delivered.
abbrev faults : List (Fault String) → List (Fault String) × Fault String
faults [] = ([], delivered)
faults (fault ∷ rest) = (rest, fault)

abbrev pub network : Network (List (Fault String)) String
network = record { next_fault = faults; bad_code = λ code. "bad response code"; closed = "EOF" }

abbrev pub user_service : UserService (Option ℤ) (Map ℤ UserRow) String
user_service = record {
  pool = pool;
  id_result = λ id. some id;
  nil_result = nothing;
  hooks = no_hooks;
  table = whole;
  sql = works;
  leaves = λ api. no_hooks-leave whole api;
}

abbrev pub event_service : EventService (Option ℤ) (Map ℤ EventRow) String
event_service = record {
  pool = pool;
  id_result = λ id. some id;
  nil_result = nothing;
  hooks = no_hooks;
  table = whole;
  sql = works;
  stored = same_time;
  leaves = λ api. no_hooks-leave whole api;
}

abbrev pub log_service : EventLogService (Option ℤ) (Map ℤ LogRow) String
log_service = record {
  pool = pool;
  id_result = λ id. some id;
  hooks = no_hooks;
  table = whole;
  sql = works;
  fmt = record { decimal = λ n. "7"; time = λ t. "noon"; ids = λ l. "[]" };
  unknown = λ event_type. "unknown event type";
  now = λ d. 8;
  scan = λ l. none;
  rows_err = none;
  leaves = λ api. no_hooks-leave whole api;
}

abbrev pub before : World (List (Fault String)) (Map ℤ UserRow) (Map ℤ EventRow) (Map ℤ LogRow)
before = record {
  net = [];
  users = (pos 0, record { user_name = "ann"; host_events = [] }) ∷ [];
  events = [];
  logs = [];
}

-- The request of `create_event`, and a party that is there.
abbrev pub create : RequestTxCreateEvent
create = record {
  user_id = pos 0;
  event_name = "party";
  event_info = "";
  start_at = 5;
  end_at = 9;
  location = "hall";
  participants = pos 3 ∷ [];
}

abbrev pub change : RequestTxUpdateEvent
change = record {
  user_id = pos 0;
  event_id = pos 0;
  event_name = "";
  event_info = "";
  start_at = 0;
  end_at = 12;
  location = "";
}

abbrev pub delete : RequestTxDeleteEvent
delete = record { user_id = pos 0; event_id = pos 0 }

abbrev pub join : RequestTxJoinEvent
join = record { event_id = pos 0; host_id = pos 0; participant_id = pos 8 }

abbrev pub leave : RequestTxLeaveEvent
leave = record { event_id = pos 0; host_id = pos 0; participant_id = pos 3 }

abbrev pub services :
    Peers (World (List (Fault String)) (Map ℤ UserRow) (Map ℤ EventRow) (Map ℤ LogRow)) String
services = peers network user_service event_service log_service ctx

-- The response to the second call is lost.
abbrev pub lossy : World (List (Fault String)) (Map ℤ UserRow) (Map ℤ EventRow) (Map ℤ LogRow)
lossy = record before { net = delivered ∷ response_lost "timeout" ∷ [] }
