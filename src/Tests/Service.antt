-- ===== src/Tests/Service.antt =====
-- Runs of the JSON API and of its access control.
use sclawion.Prelude.{◌≡◌, ◌≢◌, refl, sym, ap, String, true, some, [], ◌∷◌, List}
use sclawion.Sorting.Insertion.{by_insertion}
use sclawion.GoMap.{lookup}
use sclawion.GoMap.Nested.{find}
use sclawion.Config.Errors.{ok}
use sclawion.Config.Types.{role_operator}
use sclawion.Config.Validate.{validate_admin_user, email_pattern}
use sclawion.Config.Validate.Accepts.{IsAdminUser, validate_admin_user_iff}
use sclawion.Config.MemStore.{new_mem_store}
use sclawion.Config.MemStore.View.{view, put_admin_user}
use sclawion.Config.Contract.{mem_store_contract}
use sclawion.Config.Sound.{spec-IsSound}
use sclawion.Config.World.{World}
use sclawion.Config.MemStore.{MemStore}
use sclawion.Config.Rbac.{require_role, IapVerifier, IapClaims, resolve_email}
use sclawion.Config.Rbac.Identity.{resolve_email-verified}
use sclawion.Config.Rbac.Gates.{Gated, require_role-Gates}
use sclawion.Admin.AdminUsers.{list_admin_users}
use sclawion.Admin.Act.{beyond, ◌▷◌}
use sclawion.Admin.Http.{Request}
use sclawion.Admin.Documents.{Sound}
use sclawion.Admin.Keeping.{Wired}
use sclawion.Config.Secrets.{SecretRotator}
use sclawion.Event.{slack}
use sclawion.Config.Types.{ConnectorConfig}
use sclawion.Config.Validate.{validate_connector, id_pattern, contains}
use sclawion.Config.MemStore.View.{update, update₂}
use sclawion.Admin.Http.{respond, connector}
use sclawion.Admin.Connectors.{put_connector, addressed}
use sclawion.Admin.Tenants.{patch_tenant}
use sclawion.Admin.Preserved.{replaced, put_connector-overtaken}
use sclawion.Admin.Main.{new_mem_store-IsSound}
use sclawion.Admin.Patched.{Patches, patch_tenant-Patches}
use sclawion.Admin.Overtaken.{rotating-overtaken}
use sclawion.Admin.Connectors.{rotating}
use sclawion.Admin.Act.{run, go}
use sclawion.Config.World.{now}
use sclawion.Config.Types.{SecretRef, kind_signing}
use sclawion.Config.Secrets.{secret_namer, secret_slot}
use sclawion.Config.Secrets.Rotation.{rotated}
use sclawion.Config.MemStore.View
use sclawion.Config.MemStore.View.{spec}
use sclawion.Prelude.{inl}
use sclawion.Prelude.Int.{pos}
use sclawion.Tests.Data.{
  acme, acme_slack, admin_store, ann, rotator, vault, cfg, deps, create_request, owner_request,
  world,
}

pub stores_agree :
    (r : SecretRotator MemStore String) → deps.rotator ≡ some r → r.store ≡ deps.store
stores_agree r e = let same : rotator ≡ r = cc in ap (λ x. x.store) (sym same)

abbrev pub wired_deps : Wired deps
wired_deps = record {
  contract = mem_store_contract by_insertion;
  recorder = refl;
  rotator = λ r e. stores_agree r e;
}

-- A store with one Owner.
abbrev pub seeded : World MemStore String
seeded = record world { store = record new_mem_store { admins = ("ann@acme.io", ann) ∷ [] } }

ann-IsAdminUser : IsAdminUser ann
unfolding validate_admin_user email_pattern
ann-IsAdminUser = (validate_admin_user_iff ann).0 refl

pub seeded-Sound : Sound wired_deps.contract seeded
unfolding mem_store_contract view lookup
seeded-Sound =
    spec-IsSound (view new_mem_store) new_mem_store-IsSound (put_admin_user ann) ann-IsAdminUser

abbrev requests : List Request
requests = create_request ∷ record create_request { path = "/v1/tenants/acme-corp/agents" } ∷ []

abbrev pub ownerless : World MemStore String
ownerless = record world { store = new_mem_store }

resolve_email-verified_example :
    (create_request.jwt ≢ "")
    × ((verify : IapVerifier) × (cfg.verifier ≡ some verify)
        × ((c : IapClaims) × (verify create_request.jwt cfg.audience ≡ ok c)
            × (c.email ≡ "ann@acme.io")))
unfolding resolve_email
resolve_email-verified_example =
    resolve_email-verified cfg create_request "ann@acme.io" (λ e. cc) refl

-- An Owner before the gate of Operators.
require_role-Gates_example :
    Gated role_operator
      (list_admin_users deps)
      owner_request
      world
      (require_role role_operator (list_admin_users deps) owner_request ▷ world)
require_role-Gates_example =
    require_role-Gates role_operator (list_admin_users deps) owner_request world

-- The stored connector has a reference, which the body of the request does not name.
abbrev with_secret : ConnectorConfig
with_secret = record acme_slack { signing_secret_ref = record { name = "s"; version = "4" } }

abbrev configured : World MemStore String
configured = record world {
  store = record admin_store { conns = ("acme-corp", (slack, with_secret) ∷ []) ∷ [] };
}

-- The same request, where a rotation has come between its read and its write.
abbrev overtaken : World MemStore String
overtaken = record configured {
  store = record admin_store {
    conns =
        (
          "acme-corp",
          (slack, record with_secret { signing_secret_ref = record { name = "s"; version = "5" } })
              ∷ [],
        )
        ∷ [];
  };
}

put_connector-overtaken_example :
    ((beyond (put_connector deps "acme-corp" slack owner_request) configured ▷ overtaken).0
      ≡ respond 200 (
          connector (
            replaced deps wired_deps "acme-corp" slack owner_request overtaken acme_slack
              with_secret)))
    × ((wired_deps.contract.look
          (beyond (put_connector deps "acme-corp" slack owner_request) configured
            ▷ overtaken).1.store).connector
        ≡ update₂ "acme-corp" slack
            (some (
              replaced deps wired_deps "acme-corp" slack owner_request overtaken acme_slack
                with_secret))
            (wired_deps.contract.look overtaken.store).connector)
unfolding mem_store_contract view find lookup validate_connector id_pattern contains addressed
put_connector-overtaken_example =
    put_connector-overtaken deps wired_deps "acme-corp" slack owner_request overtaken acme_slack
      with_secret configured refl refl refl

-- A disabled tenant, and a patch whose flag is false.
abbrev asleep : World MemStore String
asleep = record world {
  store = record admin_store {
    tenants = ("acme-corp", record acme { disabled = true; display_name = "Old" }) ∷ [];
  };
}

patch_tenant-Patches_example :
    Patches wired_deps.contract.look "acme-corp"
      (ok acme)
      (now deps.host asleep)
      asleep
      (patch_tenant deps "acme-corp" owner_request ▷ asleep)
patch_tenant-Patches_example = patch_tenant-Patches deps wired_deps "acme-corp" owner_request asleep

-- The same connector, where it has been changed between the read and the write of a rotation.
abbrev changed : World MemStore String
changed = record configured {
  store = record admin_store {
    conns = ("acme-corp", (slack, record with_secret { rate_limit_per_conv = pos 7 }) ∷ []) ∷ [];
  };
}

abbrev version_1 : SecretRef
version_1 = record {
  name = "projects/my-proj/secrets/sclawion-acme-corp-slack-signing";
  version = "1";
}

rotating-overtaken_example :
    ((run
        (beyond
          (beyond (rotating rotator vault "acme-corp" slack kind_signing "hunter2") configured)
          configured)
        changed).0
      ≡ go version_1)
    × (view
          (run
            (beyond
              (beyond (rotating rotator vault "acme-corp" slack kind_signing "hunter2") configured)
              configured)
            changed).1.store
        ≡ (spec
            (View.put_connector (rotated kind_signing version_1 with_secret))
            (view changed.store)).1)
unfolding mem_store_contract view find lookup secret_namer secret_slot
rotating-overtaken_example =
    rotating-overtaken rotator (mem_store_contract by_insertion) vault "acme-corp" slack
      kind_signing "hunter2" configured configured changed version_1 with_secret refl refl
      (inl refl)
