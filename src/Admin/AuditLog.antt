-- ===== src/Admin/AuditLog.antt =====
-- cmd/admin-api/handlers/audit.go
use sclawion.Prelude.{String, ◌==◌, Option, none, some, if◌then◌else◌}
use sclawion.Prelude.Int.{ℤ, pos, eqb_ℤ}
use sclawion.Bytes.{bytes, parse_int}
use sclawion.Config.Store.{AuditFilter}
use sclawion.Admin.Http.{Request, audit}
use sclawion.Admin.Act.{Handler, ◌>>=◌, answer, fetch}
use sclawion.Admin.Deps.{Deps}

-- `if n, err := strconv.Atoi(v); err == nil { f.Limit = n }`
abbrev number_or_zero : Option ℤ → ℤ
number_or_zero none = pos 0
number_or_zero (some n) = n

-- The limit of the query: 200 where it is missing, no number, or 0.
unfoldable pub limit_of : String → ℤ
limit_of v =
    let asked : ℤ = if v == "" then pos 0 else number_or_zero (parse_int (bytes v)) in
    if eqb_ℤ asked (pos 0) then pos 200 else asked

unfoldable pub filter_of : Request → AuditFilter
filter_of r = record {
  tenant_id = r.query "tenant";
  actor = r.query "actor";
  resource_type = r.query "resource";
  limit = limit_of (r.query "limit");
}

module _ {S V : Type 0} (d : Deps S V) where
  unfoldable pub list_audit : Handler S V
  list_audit r = do es ← fetch (d.store.list_audit (filter_of r)); answer 200 (audit es)
