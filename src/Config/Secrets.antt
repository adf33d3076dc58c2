-- ===== src/Config/Secrets.antt =====
-- pkg/config/secretwriter.go: the names of the secrets, and their rotation.
pub mod Rotation
pub mod Names
use sclawion.Text.{◌⧺◌}
use sclawion.Prelude.{String, ◌==◌, Option, ◌≡◌, refl, if◌then◌else◌}
use sclawion.Event.{Platform}
use sclawion.Config.Errors.{Result, ok, err, plain, wrapped}
use sclawion.Config.Types.{SecretRef, SecretKind, kind_signing, kind_oauth, ConnectorConfig}
use sclawion.Config.Store.{Store}
use sclawion.Config.World.{Writer, World}

unfoldable pub secret_slot : SecretKind → String
secret_slot k = if k == kind_signing then "signing" else if k == kind_oauth then "oauth" else k

unfoldable pub secret_namer : String → String → Platform → SecretKind → String
secret_namer project_id tenant_id p kind =
    "projects/" ⧺ project_id ⧺ "/secrets/sclawion-" ⧺ tenant_id ⧺ "-" ⧺ p ⧺ "-" ⧺ secret_slot kind

-- The connector with the new reference in the slot of the kind.
unfoldable pub set_ref : SecretKind → SecretRef → ConnectorConfig → Result ConnectorConfig
set_ref kind ref c =
    if kind == kind_signing
    then ok (record c { signing_secret_ref = ref })
    else if kind == kind_oauth
    then ok (record c { oauth_token_ref = ref })
    else err (plain "rotate: unknown kind")

pub record SecretRotator (S V : Type 0) : Type 0 where
  pub project_id : String
  -- nil until the Secret Manager is wired; `Rotate` is called only where it is set
  pub writer : Option (Writer V)
  pub store : Store S

module _ {S V : Type 0} (r : SecretRotator S V) where
  persist_connector : SecretRef → Result ConnectorConfig → World S V → Result SecretRef × World S V
  persist_connector ref (err e) w = (err e, w)
  persist_connector ref (ok c) w =
      let (result, s) = r.store.put_connector c w.store in
      (
        elim result [ ok _ ↦ ok ref | err e ↦ err (wrapped "rotate: persist connector: " e) ],
        record w { store = s },
      )

  update_connector :
      SecretKind → SecretRef → Result ConnectorConfig → World S V → Result SecretRef × World S V
  unfolding persist_connector
  update_connector kind ref (err e) w = (err (wrapped "rotate: connector not found: " e), w)
  update_connector kind ref (ok c) w = persist_connector ref (set_ref kind ref c) w

  after_version :
      String → Platform → SecretKind → Result SecretRef → World S V → Result SecretRef × World S V
  unfolding update_connector
  after_version tenant_id p kind (err e) w = (err (wrapped "rotate: " e), w)
  after_version tenant_id p kind (ok ref) w =
      update_connector kind ref (r.store.get_connector tenant_id p w.store) w

  -- A new version in the Secret Manager first, then the connector's reference to it.
  unfoldable pub rotate :
      Writer V → String → Platform → SecretKind → String → World S V → Result SecretRef × World S V
  unfolding after_version
  rotate writer tenant_id p kind value w =
      let (result, vault) =
        writer.add_version (secret_namer r.project_id tenant_id p kind) value w.vault in
      after_version tenant_id p kind result (record w { vault = vault })

secret_namer_test :
    secret_namer "my-proj" "acme" "slack" kind_signing
    ≡ "projects/my-proj/secrets/sclawion-acme-slack-signing"
unfolding secret_namer secret_slot
secret_namer_test = refl
