-- ===== src/Tests/Threads.antt =====
-- Slack events of one thread.
use sclawion.Prelude.{◌≡◌, ◌↔◌, refl, String, []}
use sclawion.Prelude.Int.{pos}
use sclawion.Bytes.{Bytes, bytes}
use sclawion.Event.{Envelope}
use sclawion.Config.Errors.{Result, ok}
use sclawion.Connectors.Slack.{RawEvent, envelope_of, decode}
use sclawion.Connectors.Slack.Threads.{InThread, conversation_iff}
use sclawion.Pubsub.{envelope_bytes}

abbrev event_at : String → String → RawEvent
event_at ts thread = record {
  team_id = "T1";
  event_id = "Ev1";
  event_time = pos 1700000000;
  event = record {
    type = "message";
    user = "U1";
    text = "hi";
    channel = "C1";
    ts = ts;
    thread_ts = thread;
  };
}

abbrev top : RawEvent
top = event_at "1700000000.0001" ""

abbrev reply_event : RawEvent
reply_event = event_at "1700000009.0002" "1700000000.0001"

decode_test : (envelope_of (bytes "{}") reply_event).conversation_id ≡ "slack:C1:1700000000.0001"
unfolding envelope_of
decode_test = refl

conversation_iff_example :
    ((envelope_of [] top).conversation_id ≡ (envelope_of [] reply_event).conversation_id) ↔ (
      (top.event.channel ≡ reply_event.event.channel)
      × ((t : String) × InThread top.event t × InThread reply_event.event t))
conversation_iff_example =
    conversation_iff [] [] top reply_event (refl, (refl, tt)) (refl, (refl, tt))

-- A JSON decoder that reads every body as the same event, and an encoder that keeps the payload.
abbrev unmarshal : Bytes → Result RawEvent
unmarshal body = ok top

abbrev marshal : Envelope → Result Bytes
marshal e = ok e.payload

decoded : decode unmarshal (bytes "{}") ≡ ok (envelope_of (bytes "{}") top)
unfolding decode
decoded = refl

encoded : envelope_bytes marshal (envelope_of (bytes "{}") top) ≡ ok (bytes "{}")
unfolding envelope_bytes envelope_of
encoded = refl
