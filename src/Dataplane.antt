-- ===== src/Dataplane.antt =====
-- The interfaces that the services of the data plane are to use, which nothing implements or calls in
-- this commit: pkg/auth/replay.go, pkg/correlation, pkg/secrets/manager.go, pkg/pubsub and pkg/obs. Each
-- is a record of operations on a state `S` of what implements it.
use sclawion.Prelude.{String, Bool}
use sclawion.Prelude.Int.{ℤ}
use sclawion.Bytes.{Bytes}
use sclawion.Event.{Platform, Envelope}
use sclawion.Config.Errors.{Result, Error, ok, plain}
use sclawion.Config.Store.{Write}

abbrev err_replay : Error
err_replay = plain "auth: replayed request"

-- auth.ReplayCache, with the TTL in nanoseconds
record ReplayCache (S : Type 0) : Type 0 where
  remember : String → ℤ → Write S

abbrev err_no_mapping : Error
err_no_mapping = plain "correlation: not found"

-- correlation.Mapping
record Mapping : Type 0 where
  conversation_id : String
  platform : Platform
  channel_id : String
  thread_id : String
  scion_agent_id : String

-- correlation.Store
record MappingStore (S : Type 0) : Type 0 where
  get : String → S → Result Mapping
  put : Mapping → Write S
  mark_processed : String → S → Result Bool × S

abbrev err_no_secret : Error
err_no_secret = plain "secrets: not found"

-- secrets.Manager
record Manager (S : Type 0) : Type 0 where
  get : String → S → Result Bytes

abbrev name_slack_signing_secret : String
name_slack_signing_secret = "slack-signing-secret"

abbrev name_slack_bot_token : String
name_slack_bot_token = "slack-bot-token"

abbrev name_discord_public_key : String
name_discord_public_key = "discord-public-key"

abbrev name_discord_bot_token : String
name_discord_bot_token = "discord-bot-token"

abbrev name_whatsapp_app_secret : String
name_whatsapp_app_secret = "whatsapp-app-secret"

abbrev name_whatsapp_access_token : String
name_whatsapp_access_token = "whatsapp-access-token"

abbrev name_gchat_service_account : String
name_gchat_service_account = "gchat-service-account"

-- pubsub.Publisher
record Publisher (S : Type 0) : Type 0 where
  publish : String → Envelope → Write S

-- obs.Shutdown, and obs.Init, which sets nothing up.
abbrev Shutdown : Type 0
Shutdown = Result (Unit {0})

abbrev init : String → Result Shutdown
init service_name = ok (ok tt)
