-- ===== src/Config/Audit.antt =====
-- pkg/config/audit.go: the recorder, which writes an entry to the store and to the structured log.
pub mod Ids
use sclawion.Prelude.{String, suc, ◌==◌, Option, none, some, [], ◌∷◌, ◌++◌, if◌then◌else◌}
use sclawion.Prelude.Int.{pos, eqb_ℤ}
use sclawion.Bytes.{Bytes, bytes}
use sclawion.Bytes.HexText.{hex_text}
use sclawion.Config.Errors.{Result, ok, err}
use sclawion.Config.Types.{AuditEntry, Snapshot, RawMessage}
use sclawion.Config.Store.{Store}
use sclawion.Config.World.{Host, World, LogLine, now, tick}

-- An entry with no field set.
abbrev pub blank : AuditEntry
blank = record {
  id = "";
  actor = "";
  actor_role = "";
  action = "";
  resource_type = "";
  resource_id = "";
  tenant_id = "";
  before = none;
  after = none;
  at = pos 0;
  trace_id = "";
  span_id = "";
  request_id = "";
  result = "";
  error = "";
}

pub record Recorder (S : Type 0) : Type 0 where
  pub store : Option (Store S)

-- The attributes of logger.Info("audit", ...).
abbrev pub log_line : AuditEntry → LogLine
log_line e = record {
  id = e.id;
  actor = e.actor;
  actor_role = e.actor_role;
  action = e.action;
  resource_type = e.resource_type;
  resource_id = e.resource_id;
  tenant_id = e.tenant_id;
  result = e.result;
  error = e.error;
  trace_id = e.trace_id;
  at = e.at;
}

-- Redact, with json.Marshal as `marshal`: a value that cannot be encoded is recorded as null.
unfoldable pub redact : (Snapshot → Result RawMessage) → Snapshot → RawMessage
redact marshal v = elim (marshal v) [ ok b ↦ b | err e ↦ bytes "null" ]

-- newID, from the bytes that were read.
unfoldable pub new_id : Bytes → String
new_id b = hex_text b

-- `if e.Result == "" { e.Result = "success" }`
unfoldable pub with_result : AuditEntry → AuditEntry
with_result e = if e.result == "" then record e { result = "success" } else e

module _ {S V : Type 0} (h : Host) (r : Recorder S) where
  -- `if e.ID == "" { e.ID = newID() }`
  unfoldable pub with_id : AuditEntry → World S V → AuditEntry × World S V
  with_id e w =
      if e.id == ""
      then (record e { id = new_id (h.random_bytes w.ids) }, record w { ids = suc w.ids })
      else (e, w)

  -- `if e.At.IsZero() { e.At = time.Now().UTC() }`
  unfoldable pub with_time : AuditEntry → World S V → AuditEntry × World S V
  with_time e w = if eqb_ℤ e.at (pos 0) then (record e { at = now h w }, tick h w) else (e, w)

  -- `if r.Store != nil { _ = r.Store.PutAudit(ctx, e) }`: the error of the store is dropped.
  unfoldable pub persist : AuditEntry → World S V → World S V
  persist e w = elim r.store [
    | none ↦ w
    | some st ↦ record w { store = (st.put_audit e w.store).1 }
  ]

  -- `r.log(e)`
  unfoldable pub logged : AuditEntry → World S V → World S V
  logged e w = record w { log = w.log ++ log_line e ∷ [] }

  -- Record as one call
  unfoldable pub record_entry : AuditEntry → World S V → World S V
  record_entry e w =
      let (named, w₁) = with_id e w in
      let (timed, w₂) = with_time named w₁ in
      logged (with_result timed) (persist (with_result timed) w₂)
