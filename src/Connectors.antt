-- ===== src/Connectors.antt =====
-- pkg/connectors/connector.go: what a platform's connector is, and what its verifiers share.
pub mod Slack
pub mod Signed
pub mod Discord
pub mod Gchat
use sclawion.Prelude.{String, Bool, true, false}
use sclawion.Bytes.{Bytes}
use sclawion.Event.{Envelope}
use sclawion.Config.Errors.{Result, ok, err, plain}

-- `r.Header.Get`: the first value of a header, empty where it is missing.
abbrev pub Headers : Type 0
Headers = String → Bytes

-- The interface Verifier: an error refuses the request with these headers and this body.
abbrev pub Verifier : Type 0
Verifier = Headers → Bytes → Result (Unit {0})

-- The interface Decoder.
abbrev pub Decoder : Type 0
Decoder = Bytes → Result Envelope

-- The interface Encoder, of which this commit has stubs that send nothing.
abbrev pub Encoder : Type 0
Encoder = Envelope → Result (Unit {0})

-- `if !test { return errors.New(message) }`
abbrev pub insist : Bool → String → Result (Unit {0})
insist true message = ok tt
insist false message = err (plain message)
