-- ===== src/Tests/Readback.antt =====
-- A connector that is put and read again.
use sclawion.Prelude.{◌≡◌, refl, inl}
use sclawion.Admin.Http.{Request, respond}
use sclawion.Admin.Act.{◌▷◌}
use sclawion.Admin.Routes.{new_api}
use sclawion.Admin.Readback.Paths.{write-read}
use sclawion.Tests.Data.{deps, owner_request}
use sclawion.Tests.Service.{wired_deps, seeded, seeded-Sound}

abbrev at_connector : Request
at_connector = record owner_request { path = "/v1/tenants/acme-corp/connectors/slack" }

abbrev put_request : Request
put_request = record at_connector { method = "PUT" }

abbrev get_request : Request
get_request = record at_connector { method = "GET" }

answered : (new_api deps put_request ▷ seeded).0.status ≡ 200
unfolding ◌▷◌ new_api sclawion.Text.has_prefix sclawion.Admin.Routes.route_tenants_item
    sclawion.Admin.Routes.route_segments sclawion.Text.split_slash sclawion.Text.trim_prefix
    sclawion.Admin.Routes.route_nested sclawion.Admin.Routes.handle_connector_path
    sclawion.Admin.Deps.owner_only sclawion.Admin.Connectors.put_connector sclawion.Admin.Act.◌>>=◌
    sclawion.Admin.Act.check sclawion.Admin.Act.◌>>◌ sclawion.Config.Validate.validate_connector
    sclawion.Config.Validate.id_pattern sclawion.Admin.Connectors.addressed
    sclawion.Config.Validate.contains sclawion.Admin.Act.peek sclawion.Admin.Act.time_now
    sclawion.Admin.Act.save sclawion.Admin.Recording.recording sclawion.Admin.Act.visit
    sclawion.Admin.Act.effect sclawion.Admin.Act.answer sclawion.Admin.Act.run
    sclawion.Config.MemStore.put_connector
answered = refl

write-read_example :
    (new_api deps get_request ▷ (new_api deps put_request ▷ seeded).1).0
    ≡ respond 200 (new_api deps put_request ▷ seeded).0.body
unfolding sclawion.Text.has_prefix
write-read_example =
    write-read deps wired_deps at_connector at_connector "PUT" (inl refl) seeded seeded-Sound refl
      answered
