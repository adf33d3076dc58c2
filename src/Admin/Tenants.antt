-- ===== src/Admin/Tenants.antt =====
-- cmd/admin-api/handlers/tenants.go
use sclawion.Prelude.{String, ◌==◌, some, if◌then◌else◌}
use sclawion.Event.{Time}
use sclawion.Config.Audit.{redact}
use sclawion.Config.Types.{Tenant, of_tenant}
use sclawion.Config.Validate.{validate_tenant}
use sclawion.Admin.Recording.{recording}
use sclawion.Admin.Http.{nothing, tenants, tenant, caller_of}
use sclawion.Admin.Act.{Handler, ◌>>=◌, ◌>>◌, answer, check, fetch, save, time_now}
use sclawion.Admin.Deps.{Deps, entry_by}

-- The fields of the patch that are set replace those of the tenant; `disabled` always does.
unfoldable pub patched_tenant : Tenant → Tenant → Time → Tenant
patched_tenant existing patch now = record existing {
  display_name = if patch.display_name == "" then existing.display_name else patch.display_name;
  disabled = patch.disabled;
  updated_at = now;
}

module _ {S V : Type 0} (d : Deps S V) where
  unfoldable pub list_tenants : Handler S V
  list_tenants r = do ts ← fetch d.store.list_tenants; answer 200 (tenants ts)

  unfoldable pub get_tenant : String → Handler S V
  get_tenant tid r = do t ← fetch (d.store.get_tenant tid); answer 200 (tenant t)

  unfoldable pub create_tenant : Handler S V
  create_tenant r = do
    t ← check (d.json.tenant r.body)
    check (validate_tenant t)
    now ← time_now d.host
    let t' = record t { created_at = now; updated_at = now }
    save (d.store.put_tenant t')
    recording d.host d.recorder (record (entry_by (caller_of r)) {
      action = "tenant.create";
      resource_type = "tenant";
      resource_id = t'.id;
      tenant_id = t'.id;
      after = some (redact d.json.marshal (of_tenant t'));
    })
    answer 201 (tenant t')

  unfoldable pub patch_tenant : String → Handler S V
  patch_tenant tid r = do
    existing ← fetch (d.store.get_tenant tid)
    patch ← check (d.json.tenant r.body)
    now ← time_now d.host
    let updated = patched_tenant existing patch now
    check (validate_tenant updated)
    save (d.store.put_tenant updated)
    recording d.host d.recorder (record (entry_by (caller_of r)) {
      action = "tenant.patch";
      resource_type = "tenant";
      resource_id = tid;
      tenant_id = tid;
      before = some (redact d.json.marshal (of_tenant existing));
      after = some (redact d.json.marshal (of_tenant updated));
    })
    answer 200 (tenant updated)

  unfoldable pub delete_tenant : String → Handler S V
  delete_tenant tid r = do
    save (d.store.delete_tenant tid)
    recording d.host d.recorder (record (entry_by (caller_of r)) {
      action = "tenant.delete";
      resource_type = "tenant";
      resource_id = tid;
      tenant_id = tid;
    })
    answer 204 nothing
