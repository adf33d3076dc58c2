-- ===== src/Connectors/Slack.antt =====
-- pkg/connectors/slack: verify.go, decode.go and encode.go.
pub mod Signing
pub mod Binding
pub mod Threads
use sclawion.Prelude.{String, ◌==◌, Option, none, some, ◌||◌, not, ◌++◌, if◌then◌else◌}
use sclawion.Prelude.Int.{ℤ}
use sclawion.Text.{◌⧺◌}
use sclawion.Bytes.{Bytes, bytes, is_empty, has_prefix, trim_prefix, parse_int}
use sclawion.Event.{Time, Envelope, TraceContext, slack, kind_user_message, current_spec_version}
use sclawion.GoTime.{unix}
use sclawion.Config.Errors.{Result, ok, err, plain, malformed, ◌>>=◌, ◌>>◌, wrap}
use sclawion.Auth.{verify_hmac_sha256, check_timestamp_skew}
use sclawion.Connectors.{Headers, Verifier, Decoder, Encoder, insist}

-- `now` is the result of the function that tests inject.
pub record SlackVerifier : Type 0 where
  pub signing_secret : Bytes
  pub now : Option Time

-- strconv.ParseInt(s, 10, 64)
abbrev parsed : Option ℤ → Result ℤ
parsed none = err malformed
parsed (some n) = ok n

-- `now := time.Now; if v.Now != nil { now = v.Now }`, where `clock` is what time.Now returns.
abbrev pub now_of : SlackVerifier → Time → Time
now_of v clock = elim v.now [ none ↦ clock | some t ↦ t ]

abbrev pub stamp : Headers → Bytes
stamp header = header "X-Slack-Request-Timestamp"

abbrev pub signature : Headers → Bytes
signature header = header "X-Slack-Signature"

-- The text that Slack signs.
unfoldable pub basestring : Bytes → Bytes → Bytes
basestring ts body = (bytes "v0:" ++ ts ++ bytes ":") ++ body

unfoldable pub verify : (Bytes → Bytes → Bytes) → SlackVerifier → Time → Verifier
unfolding basestring parse_int
verify hmac v clock header body =
    let ts = stamp header in
    let sig = signature header in
    insist (not (is_empty ts || is_empty sig)) "slack: missing signature headers"
    >> (wrap "slack: bad timestamp: " (parsed (parse_int ts)) >>= λ n.
        check_timestamp_skew (unix n) (now_of v clock))
    >> insist (has_prefix sig (bytes "v0=")) "slack: signature missing v0= prefix"
    >> verify_hmac_sha256 hmac v.signing_secret (basestring ts body) (trim_prefix sig (bytes "v0="))

-- rawEvent and its field Event.
pub record Message : Type 0 where
  pub type : String
  pub user : String
  pub text : String
  pub channel : String
  pub ts : String
  pub thread_ts : String

pub record RawEvent : Type 0 where
  pub team_id : String
  pub event_id : String
  pub event_time : ℤ
  pub event : Message

-- The thread: that of a reply, or the one that a message starts.
unfoldable pub thread_of : Message → String
thread_of m = if m.thread_ts == "" then m.ts else m.thread_ts

unfoldable pub envelope_of : Bytes → RawEvent → Envelope
unfolding thread_of unix
envelope_of body r = record {
  spec_version = current_spec_version;
  id = r.event_id;
  conversation_id = "slack:" ⧺ r.event.channel ⧺ ":" ⧺ thread_of r.event;
  platform = slack;
  kind = kind_user_message;
  occurred_at = unix r.event_time;
  scion_agent_id = "";
  payload = body;
  trace = record { trace_id = ""; span_id = "" };
}

-- `unmarshal` is json.Unmarshal into a rawEvent.
unfoldable pub decode : (Bytes → Result RawEvent) → Decoder
unfolding envelope_of
decode unmarshal body = wrap "slack: decode: " (unmarshal body) >>= λ r. ok (envelope_of body r)

unfoldable pub encode : Encoder
encode ev = err (plain "slack: encoder not implemented")
