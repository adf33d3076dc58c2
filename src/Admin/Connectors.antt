-- ===== src/Admin/Connectors.antt =====
-- cmd/admin-api/handlers/connectors.go
use sclawion.Prelude.{String, not, ◌||◌, ◌==◌, Option, none, some, if◌then◌else◌}
use sclawion.Event.{Platform}
use sclawion.Config.Audit.{redact}
use sclawion.Config.Errors.{Result, ok, err}
use sclawion.Config.Types.{
  SecretKind, SecretRef, ConnectorConfig, kind_signing, kind_oauth, of_connector, of_rotation,
}
use sclawion.Config.Validate.{validate_connector, want_path}
use sclawion.Config.World.{Writer}
use sclawion.Admin.Recording.{recording}
use sclawion.Config.Errors.{Result, ok, err, wrap}
use sclawion.Config.World.{Writer, World}
use sclawion.Config.Secrets.{SecretRotator, secret_namer, set_ref}
use sclawion.Admin.Http.{connectors, connector, rotated, caller_of}
use sclawion.Admin.Act.{
  Act, settle, Handler, ◌>>=◌, ◌>>◌, answer, check, fetch, save, attempt, peek, demand, present,
  time_now,
}
use sclawion.Config.Store.{Write}
use sclawion.Admin.Deps.{Deps, entry_by}

-- The body under the keys of the path, with the platform's webhook path where it gives none.
unfoldable pub addressed : String → Platform → ConnectorConfig → ConnectorConfig
addressed tid p c = record c {
  tenant_id = tid;
  platform = p;
  webhook_path = if c.webhook_path == "" then want_path p else c.webhook_path;
}

-- The secret references of the stored connector, if there is one, replace those of the body.
unfoldable pub with_refs_of : Result ConnectorConfig → ConnectorConfig → ConnectorConfig
with_refs_of (ok existing) c = record c {
  signing_secret_ref = existing.signing_secret_ref;
  oauth_token_ref = existing.oauth_token_ref;
}
with_refs_of (err e) c = c

module _ {S V : Type 0} where
  abbrev pub with_writer :
      SecretRotator S V → Option (Writer V) → Option (SecretRotator S V × Writer V)
  with_writer rot none = none
  with_writer rot (some w) = some (rot, w)

  -- `d.Rotator == nil || d.Rotator.Writer == nil`
  abbrev pub wired : Option (SecretRotator S V) → Option (SecretRotator S V × Writer V)
  wired none = none
  wired (some rot) = with_writer rot rot.writer

module _ {S V : Type 0} (rot : SecretRotator S V) where
  -- `r.Writer.AddVersion`
  abbrev pub store_version :
      Writer V → String → Platform → SecretKind → String → World S V → Result SecretRef × World S V
  store_version writer tid p kind value w =
      let (result, vault) =
        writer.add_version (secret_namer rot.project_id tid p kind) value w.vault in
      (wrap "rotate: " result, record w { vault = vault })

  -- `r.Store.PutConnector`
  abbrev pub write_back : ConnectorConfig → Write S
  write_back c s =
      let (result, s') = rot.store.put_connector c s in
      (wrap "rotate: persist connector: " result, s')

  -- d.Rotator.Rotate as the steps of a handler: a new version in the Secret Manager, a read of the
  -- connector and a write of it.
  unfoldable pub rotating : Writer V → String → Platform → SecretKind → String → Act S V SecretRef
  rotating writer tid p kind value = do
    ref ← attempt (store_version writer tid p kind value)
    c ← fetch (λ s. wrap "rotate: connector not found: " (rot.store.get_connector tid p s))
    c' ← settle (set_ref kind ref c)
    save (write_back c')
    settle (ok ref)

module _ {S V : Type 0} (d : Deps S V) where
  unfoldable pub list_connectors : String → Handler S V
  list_connectors tid r = do cs ← fetch (d.store.list_connectors tid); answer 200 (connectors cs)

  unfoldable pub get_connector : String → Platform → Handler S V
  get_connector tid p r = do c ← fetch (d.store.get_connector tid p); answer 200 (connector c)

  unfoldable pub put_connector : String → Platform → Handler S V
  put_connector tid p r = do
    body ← check (d.json.connector r.body)
    let c = addressed tid p body
    check (validate_connector c)
    existing ← peek (d.store.get_connector tid p)
    now ← time_now d.host
    let c' = record (with_refs_of existing c) { updated_at = now; updated_by = (caller_of r).email }
    save (d.store.put_connector c')
    recording d.host d.recorder (record (entry_by (caller_of r)) {
      action = "connector.put";
      resource_type = "connector";
      resource_id = p;
      tenant_id = tid;
      after = some (redact d.json.marshal (of_connector c'));
    })
    answer 200 (connector c')

  unfoldable pub rotate_secret : String → Platform → Handler S V
  rotate_secret tid p r = do
    req ← check (d.json.rotate_request r.body)
    demand (req.kind == kind_signing || req.kind == kind_oauth) 400
        "kind must be signing_secret|oauth_token"
    demand (not (req.value == "")) 400 "value required"
    configured ← present (wired d.rotator) 503 "secret writer not configured"
    ref ← rotating configured.0 configured.1 tid p req.kind req.value
    recording d.host d.recorder (record (entry_by (caller_of r)) {
      action = "connector.rotate_secret";
      resource_type = "connector";
      resource_id = p;
      tenant_id = tid;
      after = some (redact d.json.marshal (of_rotation req.kind req.reason ref.version));
    })
    now ← time_now d.host
    answer 200 (rotated ref now)
