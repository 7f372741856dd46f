-- ===== src/Audit.antt =====
-- apps/api/src/modules/audit/services/audit.service.ts: the append-only journal.
use savemycontrollers.Prelude.{String, Uuid, Option, List, [], ◌∷◌, ◌++◌}

pub data ActorType : Type 0 where
  user_actor staff_actor system_actor : ActorType

pub data AuditOutcome : Type 0 where
  success failure : AuditOutcome

pub record AuditContext : Type 0 where
  pub actor_user_id : Option Uuid
  pub actor_type : ActorType
  pub ip_address : Option String
  pub user_agent : Option String
  pub correlation_id : Uuid

pub record AuditRow : Type 0 where
  pub context : AuditContext
  pub action : String
  pub resource_type : String
  pub resource_id : Option Uuid
  pub outcome : AuditOutcome

-- `record`: one row more.
abbrev pub record_entry :
    AuditContext → String → String → Option Uuid → AuditOutcome → List AuditRow → List AuditRow
record_entry context action resource_type resource_id outcome rows =
    rows
    ++ record {
      context = context;
      action = action;
      resource_type = resource_type;
      resource_id = resource_id;
      outcome = outcome;
    }
      ∷ []
