-- ===== src/Admin/Boot.antt =====
-- cmd/admin-api/main.go: the environment, the choice of the store, and the start up to the guard.
use sclawion.Prelude.{
  ◌≡◌, ◌≢◌, ◌⊎◌, refl, inl, inr, String, ◌==◌, ◌&&◌, not, Bool, true, false, if◌then◌else◌, eq_iff,
  arith, text-cases,
}
use sclawion.Sorting.{Sorter}
use sclawion.Config.Errors.{Result, ok, err, plain, wrapped, not_found, Error}
use sclawion.Config.MemStore.{MemStore, mem_store, new_mem_store, put_admin_user}
use sclawion.Config.Firestore.{FirestoreStore, new_firestore_store, firestore_store}
use sclawion.Config.Rbac.{dev_bypass_email}
use sclawion.Admin.Start.{dev_owner, require_owner_seed}

ne_of_false : {s : String} (t : String) → (s == t) ≡ false → s ≢ t
ne_of_false {s} t h e = ground (arith, eq_iff s t)

and_false : (b : Bool) → (b && false) ≡ false
and_false true = refl
and_false false = refl

-- envOr, from the value that os.Getenv returns.
unfoldable pub env_or : String → String → String
env_or v def = if v == "" then def else v

-- The interface config.Store, with the two stores behind it.
pub data Opened : Type 0 where
  memory : MemStore → Opened
  production : FirestoreStore → Opened

unfoldable pub new_store : String → Opened
new_store env = if env == "dev" then memory new_mem_store else production new_firestore_store

abbrev after_guard : {S : Type 0} → (S → Opened) → Result (Unit {0}) × S → Result Opened
after_guard kind (err e, s) = err (wrapped "admin-api: " e)
after_guard kind (ok _, s) = ok (kind s)

unseeded :
    (env bypass : String)
    → (env == "dev") ≡ false
    → after_guard production (require_owner_seed firestore_store env bypass new_firestore_store)
      ≡ err (wrapped "admin-api: " not_found)
unfolding require_owner_seed
unseeded env bypass m = rw (m, require_owner_seed) refl

module _ (sorter : Sorter) where
  abbrev pub seed : String → String → Opened → Result Opened
  seed env bypass (memory s) =
      after_guard memory (require_owner_seed (mem_store sorter) env bypass s)
  seed env bypass (production s) =
      after_guard production (require_owner_seed firestore_store env bypass s)

  -- The store that the service starts on, or the error of log.Fatal; `vars` is os.Getenv.
  unfoldable pub start : (String → String) → Result Opened
  unfolding env_or new_store
  start vars =
      let env = env_or (vars "ENV") "dev" in
      if vars "GCP_PROJECT" == "" && not (env == "dev")
      then err (plain "admin-api: GCP_PROJECT required in non-dev env")
      else seed env (dev_bypass_email vars) (new_store env)

  -- The service starts exactly if the variable ENV is empty or "dev", and then on a store in memory
  -- that holds the one Owner of the start; in any other environment its start fails.
  pub start-dev :
      (vars : String → String)
      → (((vars "ENV" ≡ "") ⊎ (vars "ENV" ≡ "dev"))
          × (start vars
              ≡ ok (
                  memory
                    (put_admin_user
                      (dev_owner (vars "ADMIN_API_DEV_IAP_BYPASS_EMAIL"))
                      new_mem_store).1)))
        ⊎ ((vars "ENV" ≢ "") × (vars "ENV" ≢ "dev") × ((e : Error) × (start vars ≡ err e)))
  unfolding start require_owner_seed put_admin_user env_or new_store
  start-dev vars = elim (text-cases (vars "ENV") "") [
    | inl e ↦ inl (inl e, rw (e, start, and_false (vars "GCP_PROJECT" == "")) refl)
    | inr n ↦ elim (text-cases (vars "ENV") "dev") [
      | inl e ↦ inl (inr e, rw (e, start, and_false (vars "GCP_PROJECT" == "")) refl)
      | inr m ↦ elim (text-cases (vars "GCP_PROJECT") "") [
        | inl e ↦ inr (
          ne_of_false "" n,
          ne_of_false "dev" m,
          (plain "admin-api: GCP_PROJECT required in non-dev env", rw (n, m, e, start) refl),
        )
        | inr p ↦ inr (
          ne_of_false "" n,
          ne_of_false "dev" m,
          (
            wrapped "admin-api: " not_found,
            rw (n, m, p, start) (unseeded (vars "ENV") (vars "ADMIN_API_DEV_IAP_BYPASS_EMAIL") m),
          ),
        )
      ]
    ]
  ]
