-- ===== src/Event.antt =====
-- pkg/event/envelope.go: the envelope on Pub/Sub, and the closed sets of platforms and kinds.
use sclawion.Prelude.{String, List, [], ◌∷◌}
use sclawion.Prelude.Int.{ℤ}
use sclawion.Bytes.{Bytes}

-- `type Platform string`: the constants name the supported ones, a value may be any text.
abbrev pub Platform : Type 0
Platform = String

abbrev pub slack : Platform
slack = "slack"

abbrev pub discord : Platform
discord = "discord"

abbrev pub gchat : Platform
gchat = "gchat"

abbrev pub whatsapp : Platform
whatsapp = "whatsapp"

abbrev pub imessage : Platform
imessage = "imessage"

-- `type Kind string`
abbrev pub Kind : Type 0
Kind = String

abbrev pub kind_user_message : Kind
kind_user_message = "user.message"

abbrev kind_agent_reply : Kind
kind_agent_reply = "agent.reply"

abbrev kind_agent_started : Kind
kind_agent_started = "agent.started"

abbrev kind_agent_completed : Kind
kind_agent_completed = "agent.completed"

abbrev kind_agent_failed : Kind
kind_agent_failed = "agent.failed"

-- time.Time as nanoseconds since the zero time, 1 January of year 1, UTC.
abbrev pub Time : Type 0
Time = ℤ

-- const SpecVersion
abbrev pub current_spec_version : String
current_spec_version = "sclawion/v1"

pub record TraceContext : Type 0 where
  pub trace_id : String
  pub span_id : String

pub record Envelope : Type 0 where
  pub spec_version : String
  pub id : String
  pub conversation_id : String
  pub platform : Platform
  pub kind : Kind
  pub occurred_at : Time
  pub scion_agent_id : String
  pub payload : Bytes
  pub trace : TraceContext

-- Attributes: the map, as its entries.
unfoldable pub attributes : Envelope → List (String × String)
attributes e = ("platform", e.platform) ∷ ("kind", e.kind) ∷ ("spec_version", e.spec_version) ∷ []
