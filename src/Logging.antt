-- ===== src/Logging.antt =====
-- internal/observability/logger: the level of the logger, the handler that sends a record to several
-- handlers, and the events of audit.go. A handler is one of the library slog: its type, whether it is
-- enabled at a level, and what it does with a record are arguments.
pub mod Fanout
use opentrusty.Prelude.{Bool, List, String, [], false, if◌then◌else◌, map, true, ◌==◌, ◌∷◌}
use opentrusty.Audit.{Attr, map_attr, optional, string_attr}
use opentrusty.Domain.Audit.{Value, text}

-- `slog.Level`
pub data Level : Type 0 where
  debug_level info_level warn_level error_level : Level

-- The level of `InitLogger`.
unfoldable pub level_of : String → Level
level_of name =
    if name == "debug"
    then debug_level
    else if name == "info"
    then info_level
    else if name == "warn"
    then warn_level
    else if name == "error"
    then error_level
    else info_level

module _ {H : Type 0} {State : Type 0} (enabled : H → Level → Bool)
    (handle : H → Level → List Attr → State → State) (with_attributes : H → List Attr → H) where
  -- `FanoutHandler.Enabled`
  unfoldable pub fanout_enabled : List H → Level → Bool
  fanout_enabled [] level = false
  fanout_enabled (h ∷ hs) level = if enabled h level then true else fanout_enabled hs level

  -- `FanoutHandler.Handle`: the error of a handler is ignored.
  unfoldable pub fanout_handle : List H → Level → List Attr → State → State
  fanout_handle [] level attrs s = s
  fanout_handle (h ∷ hs) level attrs s =
      fanout_handle hs level attrs (if enabled h level then handle h level attrs s else s)

  -- `FanoutHandler.WithAttrs`
  unfoldable pub fanout_with_attrs : List H → List Attr → List H
  fanout_with_attrs hs attrs = map (λ h. with_attributes h attrs) hs

pub record AuditEvent : Type 0 where
  pub event_type : String
  pub user_id : String
  pub session_id : String
  pub client_id : String
  pub ip_address : String
  pub action : String
  pub resource : String
  pub result : String
  pub reason : String
  pub metadata : List (String × Value)

abbrev with_metadata : List (String × Value) → List Attr
with_metadata [] = []
with_metadata (x ∷ xs) = map_attr "metadata" (x ∷ xs) ∷ []

-- `AuditLogger.Log`: the attributes of the record. The metadata are logged as they are.
unfoldable pub audit_attributes : AuditEvent → List Attr
audit_attributes e =
    string_attr "event_type" e.event_type
    ∷ string_attr "action" e.action
    ∷ string_attr "result" e.result
    ∷ optional "user_id" e.user_id (
        optional "session_id" e.session_id (
          optional "client_id" e.client_id (
            optional "ip_address" e.ip_address (
              optional "resource" e.resource
                (optional "reason" e.reason (with_metadata e.metadata))))))

-- The fields that the events below have in common.
abbrev blank : AuditEvent
blank = record {
  event_type = "";
  user_id = "";
  session_id = "";
  client_id = "";
  ip_address = "";
  action = "";
  resource = "";
  result = "";
  reason = "";
  metadata = [];
}

unfoldable pub login_success : String → String → String → AuditEvent
login_success user session ip = record blank {
  event_type = "authentication";
  user_id = user;
  session_id = session;
  ip_address = ip;
  action = "login";
  result = "success";
}

unfoldable pub login_failure : String → String → String → AuditEvent
login_failure email ip why = record blank {
  event_type = "authentication";
  ip_address = ip;
  action = "login";
  result = "failure";
  reason = why;
  metadata = ("email", text email) ∷ [];
}

unfoldable pub logout_event : String → String → String → AuditEvent
logout_event user session ip = record blank {
  event_type = "authentication";
  user_id = user;
  session_id = session;
  ip_address = ip;
  action = "logout";
  result = "success";
}

unfoldable pub authorization_granted : String → String → String → String → AuditEvent
authorization_granted user client scope ip = record blank {
  event_type = "authorization";
  user_id = user;
  client_id = client;
  ip_address = ip;
  action = "authorize";
  result = "success";
  metadata = ("scope", text scope) ∷ [];
}

unfoldable pub authorization_denied : String → String → String → String → AuditEvent
authorization_denied user client why ip = record blank {
  event_type = "authorization";
  user_id = user;
  client_id = client;
  ip_address = ip;
  action = "authorize";
  result = "denied";
  reason = why;
}

unfoldable pub account_created : String → String → String → AuditEvent
account_created user by ip = record blank {
  event_type = "account_management";
  user_id = user;
  ip_address = ip;
  action = "create_account";
  result = "success";
  metadata = ("created_by", text by) ∷ [];
}

unfoldable pub password_changed : String → String → AuditEvent
password_changed user ip = record blank {
  event_type = "account_management";
  user_id = user;
  ip_address = ip;
  action = "change_password";
  result = "success";
}

unfoldable pub account_deleted : String → String → String → AuditEvent
account_deleted user by ip = record blank {
  event_type = "account_management";
  user_id = user;
  ip_address = ip;
  action = "delete_account";
  result = "success";
  metadata = ("deleted_by", text by) ∷ [];
}

unfoldable pub access_denied : String → String → String → String → AuditEvent
access_denied user what why ip = record blank {
  event_type = "access_control";
  user_id = user;
  ip_address = ip;
  action = "access";
  resource = what;
  result = "denied";
  reason = why;
}
