-- ===== src/Admin/Recording.antt =====
-- pkg/config/audit.go: Recorder.Record as the steps of a handler.
use sclawion.Prelude.{◌≡◌, refl}
use sclawion.Config.Types.{AuditEntry}
use sclawion.Config.World.{Host, World}
use sclawion.Config.Audit.{Recorder, with_id, with_time, with_result, persist, logged, record_entry}
use sclawion.Admin.Act.{Act, go, ◌>>=◌, ◌>>◌, visit, effect, run}

module _ {S V : Type 0} (h : Host) (rec : Recorder S) where
  -- A random id, a reading of the clock, a write to the store and a line in the log.
  unfoldable pub recording : AuditEntry → Act S V (Unit {0})
  recording e = do
    named ← visit (with_id h rec e)
    timed ← visit (with_time h rec named)
    effect (persist h rec (with_result timed))
    effect (logged h rec (with_result timed))

  -- Run alone, these steps are Record as one call.
  run-recording :
      (e : AuditEntry) (w : World S V) → run (recording e) w ≡ (go tt, record_entry h rec e w)
  unfolding recording visit effect ◌>>=◌ ◌>>◌ run record_entry
  run-recording e w = refl
