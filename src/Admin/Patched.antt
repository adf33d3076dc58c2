-- ===== src/Admin/Patched.antt =====
-- PATCH of a tenant: which of its fields the body replaces.
use sclawion.Prelude.{
  arith, ◌≡◌, ◌≢◌, ◌⊎◌, inl, inr, refl, ap, ◌∙◌, String, none, some, ◌==◌, if◌then◌else◌, eq_iff,
  text-cases, Option-cases,
}
use sclawion.Event.{Time}
use sclawion.Config.Errors.{Result, ok, err, Error, not_found, Result-cases}
use sclawion.Config.Types.{Tenant, AuditEntry, of_tenant}
use sclawion.Config.Validate.{validate_tenant}
use sclawion.Config.Validate.Accepts.{IsTenant, validate_tenant_iff}
use sclawion.Config.MemStore.{found}
use sclawion.Config.MemStore.View
use sclawion.Config.MemStore.View.{View, spec, update}
use sclawion.Config.World.{World, now, tick}
use sclawion.Config.Audit.{redact, record_entry}
use sclawion.Admin.Http.{Request, Response, respond, tenant, failure, caller_of, http_status_for}
use sclawion.Admin.Recording.{recording}
use sclawion.Admin.Act.{◌>>=◌, ◌>>◌, answer, check, fetch, save, time_now, effect, visit, ◌▷◌, run}
use sclawion.Admin.Deps.{Deps, entry_by}
use sclawion.Admin.Trail.{completed}
use sclawion.Admin.Recorded.{store-record_entry}
use sclawion.Admin.Keeping.{Wired}
use sclawion.Admin.Tenants.{patch_tenant, patched_tenant}

-- What a patch makes of a tenant: a display name that is not empty replaces the old one, and the flag
-- always does, so that one that is false enables a disabled tenant.
pub record IsPatched (old patch : Tenant) (at : Time) (new : Tenant) : Type 0 where
  pub display_name :
      ((patch.display_name ≢ "") × (new.display_name ≡ patch.display_name))
      ⊎ ((patch.display_name ≡ "") × (new.display_name ≡ old.display_name))
  pub disabled : new.disabled ≡ patch.disabled
  pub updated_at : new.updated_at ≡ at
  pub id : new.id ≡ old.id
  pub created_at : new.created_at ≡ old.created_at

-- The outcome of a patch, which read as `body`, of what the store holds.
pub data Patches {S V : Type 0} (look : S → View) (tid : String) (body : Result Tenant) (at : Time)
    (w : World S V) (out : Response × World S V) : Type 0 where
  no_tenant :
      (look w.store).tenant tid ≡ none
      → out ≡ (respond 404 (failure not_found), w)
      → Patches look tid body at w out
  unreadable :
      (old : Tenant) (e : Error)
      → (look w.store).tenant tid ≡ some old
      → body ≡ err e
      → out ≡ (respond 400 (failure e), w)
      → Patches look tid body at w out
  refused :
      (old patch new : Tenant) (e : Error)
      → (look w.store).tenant tid ≡ some old
      → body ≡ ok patch
      → IsPatched old patch at new
      → ¬ IsTenant new
      → out.0 ≡ respond 400 (failure e)
      → out.1.store ≡ w.store
      → out.1.log ≡ w.log
      → Patches look tid body at w out
  replaced :
      (old patch new : Tenant) (entry : AuditEntry)
      → (look w.store).tenant tid ≡ some old
      → body ≡ ok patch
      → IsPatched old patch at new
      → IsTenant new
      → out.0 ≡ respond 200 (tenant new)
      → look out.1.store
        ≡ (spec (View.put_audit entry) (spec (View.put_tenant new) (look w.store)).1).1
      → Patches look tid body at w out

module _ {S V : Type 0} (d : Deps S V) (wd : Wired d) (tid : String) (r : Request) (w : World S V)
    (patch old : Tenant) where
  -- The stored tenant with the body's display name, if it has one, and the body's flag.
  abbrev pub patched : Tenant
  patched = record old {
    display_name = if patch.display_name == "" then old.display_name else patch.display_name;
    disabled = patch.disabled;
    updated_at = now d.host w;
  }

  written : World S V
  written = record w {
    store = (d.store.put_tenant patched w.store).1;
    readings = (tick d.host w).readings;
  }

  entry : AuditEntry
  entry = record (entry_by (caller_of r)) {
    action = "tenant.patch";
    resource_type = "tenant";
    resource_id = tid;
    tenant_id = tid;
    before = some (redact d.json.marshal (of_tenant old));
    after = some (redact d.json.marshal (of_tenant patched));
  }

  patched-IsPatched : IsPatched old patch (now d.host w) patched
  patched-IsPatched = record {
    display_name = elim (text-cases patch.display_name "") [
      | inl e ↦ inr (e, rw e refl)
      | inr n ↦ inl (ground (arith, n, eq_iff patch.display_name ""), ground (arith, n))
    ];
    disabled = refl;
    updated_at = refl;
    id = refl;
    created_at = refl;
  }

  module _ (stored : (wd.contract.look w.store).tenant tid ≡ some old)
      (reads : d.json.tenant r.body ≡ ok patch) (valid : validate_tenant patched ≡ ok tt) where
    got : d.store.get_tenant tid w.store ≡ ok old
    got = wd.contract.tenant tid w.store ∙ ap found stored

    patch_tenant-answer : (patch_tenant d tid r ▷ w).0 ≡ respond 200 (tenant patched)
    unfolding patch_tenant patched_tenant ◌>>=◌ ◌>>◌ answer check fetch time_now save effect visit
        recording record_entry ◌▷◌ run
    patch_tenant-answer =
        let (result, changed) = wd.contract.writes (View.put_tenant patched) w.store in
        ground (arith, got, reads, valid, result)

    patch_tenant-store :
        (patch_tenant d tid r ▷ w).1.store ≡ (record_entry d.host d.recorder entry written).store
    unfolding patch_tenant patched_tenant ◌>>=◌ ◌>>◌ answer check fetch time_now save effect visit
        recording record_entry ◌▷◌ run written entry
    patch_tenant-store =
        let (result, changed) = wd.contract.writes (View.put_tenant patched) w.store in
        ground (arith, got, reads, valid, result)

    patch_tenant-look :
        wd.contract.look (patch_tenant d tid r ▷ w).1.store
        ≡ (spec
            (View.put_audit (completed d.host d.recorder entry written))
            (spec (View.put_tenant patched) (wd.contract.look w.store)).1).1
    unfolding written
    patch_tenant-look =
        let (result, changed) = wd.contract.writes (View.put_tenant patched) w.store in
        let e : AuditEntry = completed d.host d.recorder entry written in
        let (_, added) = wd.contract.writes (View.put_audit e) written.store in
        ap wd.contract.look
          (patch_tenant-store ∙ store-record_entry d.host d.recorder entry written wd.recorder)
        ∙ added
        ∙ ap (λ v. (spec (View.put_audit e) v).1) changed

module _ {S V : Type 0} (d : Deps S V) (wd : Wired d) (tid : String) (r : Request)
    (w : World S V) where
  abbrev Outcome : Type 0
  Outcome =
      Patches wd.contract.look tid (d.json.tenant r.body) (now d.host w) w
        (patch_tenant d tid r ▷ w)

  patch_absent : (wd.contract.look w.store).tenant tid ≡ none → Outcome
  unfolding patch_tenant ◌>>=◌ fetch ◌▷◌ run http_status_for
  patch_absent e =
      let got : d.store.get_tenant tid w.store ≡ err not_found =
        wd.contract.tenant tid w.store ∙ ap found e in
      no_tenant e (ground (arith, got))

  module _ (old : Tenant) (stored : (wd.contract.look w.store).tenant tid ≡ some old) where
    held : d.store.get_tenant tid w.store ≡ ok old
    held = wd.contract.tenant tid w.store ∙ ap found stored

    patch_unreadable : (e : Error) → d.json.tenant r.body ≡ err e → Outcome
    unfolding patch_tenant ◌>>=◌ ◌>>◌ fetch check ◌▷◌ run
    patch_unreadable e reads = unreadable old e stored reads (ground (arith, held, reads))

    module _ (patch : Tenant) (reads : d.json.tenant r.body ≡ ok patch) where
      abbrev new : Tenant
      new = patched d wd tid r w patch old

      patch_refused : (e : Error) → validate_tenant new ≡ err e → Outcome
      unfolding patch_tenant patched_tenant ◌>>=◌ ◌>>◌ fetch check time_now ◌▷◌ run
      patch_refused e bad =
          refused old patch new e stored reads (patched-IsPatched d wd tid r w patch old)
            (λ fits. cc ((validate_tenant_iff new).1 fits, bad)) (ground (arith, held, reads, bad))
            (ground (arith, held, reads, bad)) (ground (arith, held, reads, bad))

      patch_replaced : validate_tenant new ≡ ok tt → Outcome
      patch_replaced valid =
          replaced old patch new
            (completed d.host d.recorder (entry d wd tid r w patch old)
              (written d wd tid r w patch old))
            stored reads (patched-IsPatched d wd tid r w patch old)
            ((validate_tenant_iff new).0 valid)
            (patch_tenant-answer d wd tid r w patch old stored reads valid)
            (patch_tenant-look d wd tid r w patch old stored reads valid)

  -- patchTenant on all its branches, if the service is wired to one store that keeps its contract: 404
  -- where the store has no tenant under the id of the path; 400 where the body does not read as a
  -- tenant, and where the patched tenant is not a valid one, and then the store and the log stay as they
  -- were; else 200 with the patched tenant, which is written in place of the old one, with one entry in
  -- the audit log and no other change. The patched tenant has the display name of the body unless that
  -- is empty, and always the flag `disabled` as the body was read.
  pub patch_tenant-Patches :
      Patches wd.contract.look tid
        (d.json.tenant r.body)
        (now d.host w)
        w
        (patch_tenant d tid r ▷ w)
  patch_tenant-Patches = elim (Option-cases ((wd.contract.look w.store).tenant tid)) [
    | inl e ↦ patch_absent e
    | inr (old, stored) ↦ elim (Result-cases (d.json.tenant r.body)) [
      | inl (e, reads) ↦ patch_unreadable old stored e reads
      | inr (patch, reads) ↦
          elim (Result-cases (validate_tenant (patched d wd tid r w patch old))) [
            | inl (e, bad) ↦ patch_refused old stored patch reads e bad
            | inr (_, valid) ↦ patch_replaced old stored patch reads valid
          ]
    ]
  ]
