-- ===== src/Config/Examples.antt =====
-- A configuration with one group route and one direct route, and an event of the group.
use signal_hermes_router.Prelude.{◌≡◌, refl, true, false, none, some, [], ◌∷◌}
use signal_hermes_router.Models.{active, persistent_route, ChatType, NormalizedEvent}
use signal_hermes_router.Values.{pos, finite, null, end}
use signal_hermes_router.Config.{Route, AppConfig, find, find_group_route, find_route_for_event}
use signal_hermes_router.Config.Lookup.{Receives, find_route_for_event-Receives}

abbrev pub group_route : Route
group_route = record {
  platform = "signal";
  profile = "p";
  session_policy = persistent_route;
  state = active;
  name = some "home";
  chat_type = ChatType.group;
  group_id = some "g";
  sender_id = none;
  sender_number = none;
  route_context = end;
  canary_reply_prefix = none;
  permission_policy = record { rules = []; mcp_only = false };
  friendly_name = null;
  maintenance_reply = none;
  failure_reply = none;
  recreate_session_on_resume_failure = false;
  session_max_turns = some 2;
  session_max_age = some 100;
  max_event_age_ms = some 50;
  inbound_rate_limit = some (record { max_turns = 2; window_ms = 1000 });
  mcp_only = false;
}

abbrev pub direct_route : Route
direct_route = record group_route {
  chat_type = ChatType.direct;
  group_id = none;
  sender_id = some "u";
}

abbrev pub config : AppConfig
config = record {
  router = record {
    signal_base_url = "http://localhost:8080";
    allow_remote_signal_base_url = false;
    state_db = "router.db";
    media_root = "media";
    signal_attachment_root = "attachments";
    max_attachment_bytes = 100;
    max_signal_event_bytes = 200;
    max_acp_line_bytes = 200;
    max_reply_chars = 100;
    max_signal_message_bytes = 16;
    work_root = "work";
    maintenance_reply = 111 ∷ [];
    failure_reply = 102 ∷ [];
    model_failure_reply = 109 ∷ [];
    busy_notice_after = finite (pos 120000);
    busy_notice = [];
    busy_notice_cooldown = 0;
    acp_prompt_timeout = finite (pos 300000);
    acp_initialize_timeout = 30000;
    max_concurrent_turns = 8;
    circuit_breaker = record {
      failures = pos 3;
      window = finite (pos 300000);
      recovery = finite (pos 300000);
    };
    control = record {
      enabled = false;
      socket_path = none;
      route_lock_timeout = finite (pos 0);
      max_notification_payload_bytes = 16384;
    };
    retention = record {
      sweep_interval = 21600000;
      dedupe_handled = some 2592000000;
      media_max_age = none;
      media_max_total_bytes = none;
    };
    local_attachment_paths = true;
  };
  routes = direct_route ∷ group_route ∷ [];
  scheduled_jobs = [];
  notifications = [];
}

abbrev pub event : NormalizedEvent
event = record {
  platform = "signal";
  sender_id = "u";
  timestamp = 970;
  text = 104 ∷ 105 ∷ [];
  source_uuid = some "u";
  chat_type = ChatType.group;
  group_id = some "g";
  source_number = none;
  attachments = [];
}

pub found : find_route_for_event config event ≡ some group_route
unfolding find_route_for_event find_group_route find
found = refl

find_route_for_event_example : Receives event group_route × (group_route.platform ≡ event.platform)
find_route_for_event_example = find_route_for_event-Receives config event group_route found
