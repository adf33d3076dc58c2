-- ===== src/Pubsub.antt =====
-- pkg/pubsub/publisher.go: the message body of an envelope. json.Marshal is a parameter.
use sclawion.Prelude.{String, ◌==◌, if◌then◌else◌}
use sclawion.Bytes.{Bytes}
use sclawion.Event.{Envelope}
use sclawion.Config.Errors.{Result, err, plain}

abbrev pub topic_inbound : String
topic_inbound = "sclawion.inbound"

abbrev pub topic_outbound : String
topic_outbound = "sclawion.outbound"

unfoldable pub envelope_bytes : (Envelope → Result Bytes) → Envelope → Result Bytes
envelope_bytes marshal e =
    if e.spec_version == "" then err (plain "pubsub: envelope missing spec_version") else marshal e
