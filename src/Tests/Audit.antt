-- ===== src/Tests/Audit.antt =====
-- An entry that is recorded with no id.
use sclawion.Prelude.{◌≡◌, refl, some, ◌==◌, [], ◌∷◌, if◌then◌else◌, String}
use sclawion.Bytes.HexText.{hex_text}
use sclawion.Sorting.Insertion.{by_insertion}
use sclawion.Config.Types.{AuditEntry}
use sclawion.Config.MemStore.{MemStore, mem_store}
use sclawion.Config.Audit.{Recorder, with_id, new_id}
use sclawion.Admin.Http.{Request, audit}
use sclawion.Config.World.{World}
use sclawion.Tests.Data.{admin_store, create_request, entry_of, host, world}

abbrev recorder : Recorder MemStore
recorder = record { store = some (mem_store by_insertion) }

abbrev entry : AuditEntry
entry = entry_of "ann@acme.io"

id_test : (with_id host recorder entry world).0.id ≡ "0123456789abcdef0123456789abcdef"
unfolding with_id new_id hex_text
id_test = refl

-- A query for one entry, where the store has two.
abbrev audit_request : Request
audit_request = record create_request {
  path = "/v1/audit";
  query = λ q. if q == "limit" then "1" else "";
}

abbrev two_entries : World MemStore String
two_entries = record world {
  store = record admin_store { audit = entry_of "ann@acme.io" ∷ entry_of "bob@acme.io" ∷ [] };
}
