-- ===== src/Services.antt =====
-- cmd/ingress, cmd/router, cmd/emitter and cmd/scion-bridge: what the services of the data plane answer
-- in this commit, and pkg/scion/client.go, the client that the router is to use.
use sclawion.Prelude.{String, ◌==◌, if◌then◌else◌}
use sclawion.Text.{◌⧺◌}
use sclawion.Event.{Platform, slack, discord, gchat, whatsapp, imessage}
use sclawion.Config.Errors.{Result, ok, err, plain}
use sclawion.Admin.Http.{Response, respond, text, nothing}

-- func(w, _) { w.WriteHeader(http.StatusOK) }
abbrev pub healthy : Response
healthy = respond 200 nothing

abbrev not_found_page : Response
not_found_page = respond 404 (text "404 page not found")

-- The handler todo of cmd/ingress.
unfoldable pub todo : Platform → Response
todo platform = respond 501 (text (platform ⧺ " handler not implemented"))

-- The mux of cmd/ingress, from the path.
unfoldable pub ingress : String → Response
unfolding todo
ingress path =
    if path == "/v1/slack"
    then todo slack
    else if path == "/v1/discord"
    then todo discord
    else if path == "/v1/gchat"
    then todo gchat
    else if path == "/v1/whatsapp"
    then todo whatsapp
    else if path == "/v1/imessage"
    then todo imessage
    else if path == "/healthz"
    then healthy
    else not_found_page

-- The mux of cmd/router.
unfoldable pub router : String → Response
router path = if path == "/healthz" then healthy else respond 501 (text "router not implemented")

-- The mux of cmd/emitter, for the platform of its flag.
unfoldable pub emitter : Platform → String → Response
emitter platform path =
    if path == "/healthz"
    then healthy
    else respond 501 (text (platform ⧺ " emitter not implemented"))

-- The start of cmd/emitter, from the flag: the mux that it serves, or the error of log.Fatal.
unfoldable pub emitter_main : String → Result (String → Response)
emitter_main platform =
    if platform == "" then err (plain "--platform is required") else ok (emitter platform)

-- The mux of cmd/scion-bridge.
unfoldable pub scion_bridge : String → Response
scion_bridge path = if path == "/healthz" then healthy else not_found_page

pub record DispatchRequest : Type 0 where
  pub template : String
  pub task : String
  pub labels : String → String

pub record Agent : Type 0 where
  pub id : String
  pub phase : String

unfoldable pub dispatch : DispatchRequest → Result Agent
dispatch req = err (plain "scion: Dispatch not implemented")

unfoldable pub message : String → String → Result (Unit {0})
message agent_id sent = err (plain "scion: Message not implemented")

unfoldable pub get : String → Result Agent
get agent_id = err (plain "scion: Get not implemented")
