-- ===== src/Admin/Preserved.antt =====
-- PUT of a connector that is already there: the secret references are those of the stored one as the
-- request read it, also where it is no longer the stored one when the request writes.
use sclawion.Prelude.{arith, ◌≡◌, refl, subst, ap, ◌∙◌, String, some}
use sclawion.Event.{Platform}
use sclawion.Config.Errors.{ok}
use sclawion.Config.Types.{ConnectorConfig, AuditEntry, of_connector}
use sclawion.Config.Validate.{validate_connector}
use sclawion.Config.MemStore.{found}
use sclawion.Config.MemStore.View
use sclawion.Config.MemStore.View.{View, spec, update₂}
use sclawion.Config.World.{World, now, tick}
use sclawion.Config.Audit.{redact, record_entry}
use sclawion.Admin.Http.{Request, respond, connector, caller_of}
use sclawion.Admin.Recording.{recording}
use sclawion.Admin.Act.{
  ◌>>=◌, ◌>>◌, answer, check, save, peek, time_now, effect, visit, ◌▷◌, run, beyond,
}
use sclawion.Admin.Deps.{Deps, entry_by}
use sclawion.Admin.Trail.{completed}
use sclawion.Admin.Recorded.{store-record_entry}
use sclawion.Admin.Keeping.{Wired}
use sclawion.Admin.Connectors.{put_connector, addressed, with_refs_of}

module _ {S V : Type 0} (d : Deps S V) (wd : Wired d) (tid : String) (p : Platform) (r : Request)
    (w : World S V) (body old : ConnectorConfig) where
  -- What is written: the body, but for the references and the trace of the change.
  abbrev pub replaced : ConnectorConfig
  replaced = record (addressed tid p body) {
    signing_secret_ref = old.signing_secret_ref;
    oauth_token_ref = old.oauth_token_ref;
    updated_at = now d.host w;
    updated_by = (caller_of r).email;
  }

  written : World S V
  written = record w {
    store = (d.store.put_connector replaced w.store).1;
    readings = (tick d.host w).readings;
  }

  entry : AuditEntry
  entry = record (entry_by (caller_of r)) {
    action = "connector.put";
    resource_type = "connector";
    resource_id = p;
    tenant_id = tid;
    after = some (redact d.json.marshal (of_connector replaced));
  }

  module _ (seen : World S V) (reads : d.json.connector r.body ≡ ok body)
      (valid : validate_connector (addressed tid p body) ≡ ok tt)
      (stored : (wd.contract.look seen.store).connector tid p ≡ some old) where
    got : d.store.get_connector tid p seen.store ≡ ok old
    got = wd.contract.connector tid p seen.store ∙ ap found stored

    put_connector-answer :
        (beyond (put_connector d tid p r) seen ▷ w).0 ≡ respond 200 (connector replaced)
    unfolding put_connector ◌>>=◌ ◌>>◌ answer check peek time_now save effect visit recording
        record_entry ◌▷◌ run with_refs_of addressed beyond
    put_connector-answer =
        let (result, changed) = wd.contract.writes (View.put_connector replaced) w.store in
        ground (arith, reads, valid, got, result)

    put_connector-store :
        (beyond (put_connector d tid p r) seen ▷ w).1.store
        ≡ (record_entry d.host d.recorder entry written).store
    unfolding put_connector ◌>>=◌ ◌>>◌ answer check peek time_now save effect visit recording
        record_entry ◌▷◌ run with_refs_of addressed written entry beyond
    put_connector-store =
        let (result, changed) = wd.contract.writes (View.put_connector replaced) w.store in
        ground (arith, reads, valid, got, result)

    put_connector-look :
        wd.contract.look (beyond (put_connector d tid p r) seen ▷ w).1.store
        ≡ (spec
            (View.put_audit (completed d.host d.recorder entry written))
            (spec (View.put_connector replaced) (wd.contract.look w.store)).1).1
    unfolding written addressed
    put_connector-look =
        let (result, changed) = wd.contract.writes (View.put_connector replaced) w.store in
        let e : AuditEntry = completed d.host d.recorder entry written in
        let (_, added) = wd.contract.writes (View.put_audit e) written.store in
        ap wd.contract.look
          (put_connector-store ∙ store-record_entry d.host d.recorder entry written wd.recorder)
        ∙ added
        ∙ ap (λ v. (spec (View.put_audit e) v).1) changed

    -- If the service is wired to one store that keeps its contract, the body of a PUT reads as a connector
    -- that is accepted under the keys of the path, and the store held a connector under these keys when
    -- the request read it, then, from whatever world the rest of the request runs alone, the answer is
    -- 200 with the connector of the body that has the secret references which the request read, and of
    -- the connectors in the store exactly the one under these keys is replaced, by that of the answer:
    -- references that came in between are lost.
    pub put_connector-overtaken :
        ((beyond (put_connector d tid p r) seen ▷ w).0 ≡ respond 200 (connector replaced))
        × ((wd.contract.look (beyond (put_connector d tid p r) seen ▷ w).1.store).connector
            ≡ update₂ tid p (some replaced) (wd.contract.look w.store).connector)
    unfolding addressed
    put_connector-overtaken =
        (put_connector-answer, ap (λ (v : View). v.connector) put_connector-look)

  module _ (reads : d.json.connector r.body ≡ ok body)
      (valid : validate_connector (addressed tid p body) ≡ ok tt)
      (stored : (wd.contract.look w.store).connector tid p ≡ some old) where
    -- The first step only reads.
    put_connector-beyond : (beyond (put_connector d tid p r) w ▷ w) ≡ (put_connector d tid p r ▷ w)
    unfolding put_connector ◌>>=◌ ◌>>◌ check peek ◌▷◌ run beyond
    put_connector-beyond = rw (reads, valid) refl

    -- If the service is wired to one store that keeps its contract, the body of a PUT reads as a connector
    -- that is accepted under the keys of the path, and the store holds a connector under these keys,
    -- then the answer is 200 with the connector of the body that has the secret references of the
    -- stored one, whatever references the body names, and of the connectors in the store exactly the
    -- one under these keys is replaced, by that of the answer.
    pub put_connector-replaced :
        ((put_connector d tid p r ▷ w).0 ≡ respond 200 (connector replaced))
        × ((wd.contract.look (put_connector d tid p r ▷ w).1.store).connector
            ≡ update₂ tid p (some replaced) (wd.contract.look w.store).connector)
    put_connector-replaced =
        subst
          (λ out.
            (out.0 ≡ respond 200 (connector replaced))
            × ((wd.contract.look out.1.store).connector
                ≡ update₂ tid p (some replaced) (wd.contract.look w.store).connector))
          put_connector-beyond (put_connector-overtaken w reads valid stored)
