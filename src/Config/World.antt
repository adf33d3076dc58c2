-- ===== src/Config/World.antt =====
-- The state that a request of the admin service works on, and what the process takes from outside:
-- the clock, random identifiers and the Secret Manager.
use sclawion.Prelude.{ℕ, suc, String, List}
use sclawion.Bytes.{Bytes}
use sclawion.Event.{Time}
use sclawion.Config.Errors.{Result}
use sclawion.Config.Types.{SecretRef}

-- `time.Now().UTC()` and the 16 bytes that `rand.Read` fills in newID, by how often each was called
-- before.
pub record Host : Type 0 where
  pub clock : ℕ → Time
  pub random_bytes : ℕ → Bytes

-- secrets.Writer: the version that was added, and the Secret Manager's next state. A value is the
-- bytes of a text.
pub record Writer (V : Type 0) : Type 0 where
  pub add_version : String → String → V → Result SecretRef × V

-- A line "audit" of the structured log: the attributes that Recorder.log gives it.
pub record LogLine : Type 0 where
  pub id : String
  pub actor : String
  pub actor_role : String
  pub action : String
  pub resource_type : String
  pub resource_id : String
  pub tenant_id : String
  pub result : String
  pub error : String
  pub trace_id : String
  pub at : Time

-- `log` holds the lines of the structured log.
pub record World (S V : Type 0) : Type 0 where
  pub store : S
  pub vault : V
  pub log : List LogLine
  pub readings : ℕ
  pub ids : ℕ

module _ {S V : Type 0} (h : Host) where
  abbrev pub now : World S V → Time
  now w = h.clock w.readings

  abbrev pub tick : World S V → World S V
  tick w = record w { readings = suc w.readings }
