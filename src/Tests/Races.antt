-- ===== src/Tests/Races.antt =====
-- putConnector (cmd/admin-api/handlers/connectors.go) between whose read and write a secret is
-- rotated: the reference to the new version is lost, though both requests answer with success.
use sclawion.Prelude.{ℕ, ◌≡◌, refl, String}
use sclawion.Config.Validate.{contains, id_pattern, validate_connector}
use sclawion.GoMap.Nested.{find}
use sclawion.GoMap.{lookup}
use sclawion.Config.Audit.{logged, persist, with_time, with_id, record_entry}
use sclawion.Event.{slack}
use sclawion.Config.Errors.{Result, ok, err}
use sclawion.Config.Types.{SecretRef, no_ref}
use sclawion.Config.World.{World}
use sclawion.Config.MemStore.{MemStore, get_connector}
use sclawion.Admin.Http.{Response}
use sclawion.Admin.Recording.{recording}
use sclawion.Admin.Act.{
  visit, run, reply, answer, effect, time_now, settle, peek, save, fetch, attempt, present, demand,
  check, ◌>>◌, ◌>>=◌, Act, ended, step, ◌▷◌,
}
use sclawion.Admin.Connectors.{addressed, rotating, put_connector, rotate_secret}
use sclawion.Tests.Data.{deps, owner_request, world}

-- The first step of a program, and what is left of it.
abbrev first :
    Act MemStore String Response
    → World MemStore String
    → Act MemStore String Response × World MemStore String
first (ended o) w = (ended o, w)
first (step u k) w = (k w, u w)

abbrev signing_ref : World MemStore String → Result SecretRef
signing_ref w = elim (get_connector "acme-corp" slack w.store) [
  | ok c ↦ ok c.signing_secret_ref
  | err e ↦ err e
]

-- The references in the store after the rotation and after the rest of the other request.
abbrev refs : ℕ × ℕ × Result SecretRef × Result SecretRef
refs =
    let (rest, w₁) = first (put_connector deps "acme-corp" slack owner_request) world in
    let (rotated, w₂) = rotate_secret deps "acme-corp" slack owner_request ▷ w₁ in
    let (put, w₃) = rest ▷ w₂ in (rotated.status, put.status, signing_ref w₂, signing_ref w₃)

-- The rotation has stored its reference; the other request puts the old one back.
lost_reference : refs ≡ (
  200,
  200,
  ok (record { name = "projects/my-proj/secrets/sclawion-acme-corp-slack-signing"; version = "1" }),
  ok no_ref,
)
unfolding put_connector rotate_secret rotating validate_connector ◌>>=◌ ◌>>◌ check demand present
    attempt fetch save peek settle time_now effect visit recording logged answer reply run ◌▷◌
    get_connector find lookup record_entry with_id with_time persist id_pattern contains addressed
    sclawion.Config.Secrets.set_ref sclawion.Config.MemStore.put_connector
    sclawion.Config.MemStore.put_audit sclawion.GoMap.Nested.put sclawion.GoMap.insert
    sclawion.Config.Secrets.secret_namer sclawion.Admin.Connectors.with_refs_of
    sclawion.Config.Secrets.secret_slot
lost_reference = refl
