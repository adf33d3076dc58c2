-- ===== src/Tests/Starts.antt =====
-- A start of the service.
use sclawion.Prelude.{String}

abbrev bypass : String
bypass = "dev@acme.io"
