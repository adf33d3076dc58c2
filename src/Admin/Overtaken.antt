-- ===== src/Admin/Overtaken.antt =====
-- A rotation among other requests: what it does to the changes of a connector that come between its
-- read of the connector and its write.
use sclawion.Prelude.{arith, ◌≡◌, ◌⊎◌, ap, ◌∙◌, String, some, eq_iff}
use sclawion.Event.{Platform}
use sclawion.Config.Errors.{ok}
use sclawion.Config.Types.{ConnectorConfig, SecretKind, SecretRef, kind_signing, kind_oauth}
use sclawion.Config.MemStore.{found}
use sclawion.Config.MemStore.View
use sclawion.Config.MemStore.View.{spec}
use sclawion.Config.Contract.{Contract}
use sclawion.Config.World.{World, Writer}
use sclawion.Config.Secrets.{SecretRotator, secret_namer, set_ref}
use sclawion.Config.Secrets.Rotation.{rotated}
use sclawion.Admin.Act.{◌>>=◌, ◌>>◌, attempt, fetch, settle, save, run, beyond, go}
use sclawion.Admin.Connectors.{rotating}

module _ {S V : Type 0} (rot : SecretRotator S V) (k : Contract rot.store) (writer : Writer V)
    (tid : String) (p : Platform) (kind : SecretKind) (value : String) (first seen w : World S V)
    (ref : SecretRef) (old : ConnectorConfig) where
  -- If the store keeps its contract, the kind is one of the two, the Secret Manager added a version
  -- at the rotation's first step, and the store held a connector under the keys at its second, then, from
  -- whatever world the rest of the rotation runs alone, it returns the reference of that version and
  -- writes the connector as it was at the second step, with that reference in the slot of the kind: a
  -- change of the connector that came in between is undone, and no other document is touched.
  pub rotating-overtaken :
      (writer.add_version (secret_namer rot.project_id tid p kind) value first.vault).0 ≡ ok ref
      → (k.look seen.store).connector tid p ≡ some old
      → (kind ≡ kind_signing) ⊎ (kind ≡ kind_oauth)
      → ((run (beyond (beyond (rotating rot writer tid p kind value) first) seen) w).0 ≡ go ref)
        × (k.look
              (run (beyond (beyond (rotating rot writer tid p kind value) first) seen) w).1.store
            ≡ (spec (View.put_connector (rotated kind ref old)) (k.look w.store)).1)
  unfolding rotating set_ref ◌>>=◌ ◌>>◌ attempt fetch settle save run beyond
  rotating-overtaken added held known =
      let got : rot.store.get_connector tid p seen.store ≡ ok old =
        k.connector tid p seen.store ∙ ap found held in
      let (result, effect) = k.writes (View.put_connector (rotated kind ref old)) w.store in
      (
        ground (arith, added, got, known, result, eq_iff kind kind_signing, eq_iff kind kind_oauth),
        ground (arith, added, got, known, effect, eq_iff kind kind_signing, eq_iff kind kind_oauth),
      )
