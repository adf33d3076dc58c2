-- ===== src/Admin/AdminUsers.antt =====
-- cmd/admin-api/handlers/admin_users.go
use sclawion.Prelude.{String, some, if◌then◌else◌}
use sclawion.Prelude.Int.{pos, eqb_ℤ}
use sclawion.Config.Audit.{redact}
use sclawion.Config.Types.{of_admin_user}
use sclawion.Config.Validate.{validate_admin_user}
use sclawion.Admin.Recording.{recording}
use sclawion.Event.{Time}
use sclawion.Config.World.{Host}
use sclawion.Admin.Http.{nothing, admin_users, admin_user, caller_of}
use sclawion.Admin.Act.{Handler, Act, go, ended, ◌>>=◌, ◌>>◌, answer, check, fetch, save, time_now}
use sclawion.Admin.Deps.{Deps, entry_by}

-- `if u.AddedAt.IsZero() { u.AddedAt = time.Now().UTC() }`: the clock is read only then.
unfoldable pub time_or_now : {S V : Type 0} → Host → Time → Act S V Time
time_or_now h t = if eqb_ℤ t (pos 0) then time_now h else ended (go t)

module _ {S V : Type 0} (d : Deps S V) where
  unfoldable pub list_admin_users : Handler S V
  list_admin_users r = do us ← fetch d.store.list_admin_users; answer 200 (admin_users us)

  unfoldable pub put_admin_user : String → Handler S V
  put_admin_user email r = do
    body ← check (d.json.admin_user r.body)
    added ← time_or_now d.host body.added_at
    let u = record body { email = email; added_at = added }
    check (validate_admin_user u)
    let u' = record u { added_by = (caller_of r).email }
    save (d.store.put_admin_user u')
    recording d.host d.recorder (record (entry_by (caller_of r)) {
      action = "admin_user.put";
      resource_type = "admin_user";
      resource_id = email;
      after = some (redact d.json.marshal (of_admin_user u'));
    })
    answer 200 (admin_user u')

  unfoldable pub delete_admin_user : String → Handler S V
  delete_admin_user email r = do
    save (d.store.delete_admin_user email)
    recording d.host d.recorder (record (entry_by (caller_of r)) {
      action = "admin_user.delete";
      resource_type = "admin_user";
      resource_id = email;
    })
    answer 204 nothing
