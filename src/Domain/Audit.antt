-- ===== src/Domain/Audit.antt =====
-- The events of internal/audit/audit.go.
use opentrusty.Prelude.{Bool, List, Option, String, none, ℕ}

-- A value of the metadata of an event.
pub data Value : Type 0 where
  text : String → Value
  number : ℕ → Value
  flag : Bool → Value

pub record Event : Type 0 where
  pub kind : String
  pub tenant_id : String
  pub actor_id : String
  pub resource : String
  pub metadata : List (String × Value)
  pub timestamp : Option ℕ
  pub ip_address : String
  pub user_agent : String

-- The fields that an event is given by most callers; the others keep Go's zero value.
abbrev pub event : String → String → String → String → List (String × Value) → Event
event kind tenant_id actor_id resource metadata = record {
  kind = kind;
  tenant_id = tenant_id;
  actor_id = actor_id;
  resource = resource;
  metadata = metadata;
  timestamp = none;
  ip_address = "";
  user_agent = "";
}
