-- ===== src/Admin/Main.antt =====
-- cmd/admin-api/main.go: what `main` hands to the handlers and to the authentication, and the service
-- that it listens with.
use sclawion.Prelude.{
  text-cases, false, ◌≡◌, ◌≢◌, ◌⊎◌, ◌∙◌, ap, eq_iff, eq_refl, refl, sym, subst, inl, inr, String,
  ◌==◌, true, some, none, [], List, arith,
}
use sclawion.Text.{◌⧺◌}
use sclawion.Sorting.{Sorter}
use sclawion.GoMap.{lookup}
use sclawion.GoMap.Nested.{find}
use sclawion.Config.Errors.{ok}
use sclawion.Config.Store.{Store}
use sclawion.Config.MemStore.{MemStore, mem_store, new_mem_store, put_admin_user}
use sclawion.Config.MemStore.View
use sclawion.Config.MemStore.View.{View, view}
use sclawion.Config.Validate.{email_pattern, validate_admin_user}
use sclawion.Config.Validate.Accepts.{validate_admin_user_iff}
use sclawion.Config.Contract.{Contract, mem_store_contract}
use sclawion.Config.Sound.{IsSound, spec-IsSound}
use sclawion.Config.World.{Host, World}
use sclawion.Config.Rbac.{IapAuthConfig, dev_bypass_email}
use sclawion.Config.Secrets.{SecretRotator}
use sclawion.Admin.Http.{Response}
use sclawion.Admin.Act.{Act, Handler}
use sclawion.Admin.Deps.{Decoders, Deps}
use sclawion.Admin.Keeping.{Wired}
use sclawion.Admin.Ui.Routes.{Assets}
use sclawion.Admin.Mux.{serve}
use sclawion.Admin.Concurrent.{Reaches, Reaches-Sound}
use sclawion.Admin.Start.{dev_owner, auth_config}
use sclawion.Admin.Boot.{env_or, memory, start, start-dev}

module _ {S : Type 0} (st : Store S) (vars : String → String) where
  -- authCfg
  unfoldable pub main_auth : IapAuthConfig S
  main_auth =
      auth_config st (env_or (vars "ENV") "dev") (dev_bypass_email vars) (vars "IAP_AUDIENCE")

-- addr
abbrev main_addr : (String → String) → String
main_addr vars = ":" ⧺ env_or (vars "PORT") "8080"

module _ {S V : Type 0} (st : Store S) (host : Host) (json : Decoders)
    (vars : String → String) where
  -- deps := handlers.Deps{...}: the rotator has no writer.
  unfoldable pub main_deps : Deps S V
  main_deps = record {
    store = st;
    recorder = record { store = some st };
    rotator = some (record { project_id = vars "GCP_PROJECT"; writer = none; store = st });
    host = host;
    json = json;
    env = env_or (vars "ENV") "dev";
  }

  -- What http.ListenAndServe is given.
  unfoldable pub main_mux : Assets → Handler S V
  main_mux assets = serve (main_auth st vars) assets main_deps

  one_store : (r : SecretRotator S V) → main_deps.rotator ≡ some r → r.store ≡ st
  unfolding main_deps
  one_store r e = ground arith

  -- Handlers, recorder and rotator share the one store.
  main_deps-Wired : Contract st → Wired main_deps
  unfolding main_deps
  main_deps-Wired k = record { contract = k; recorder = refl; rotator = one_store }

-- The world when the service starts to listen.
abbrev pub first_world : {S V : Type 0} → S → V → World S V
first_world s vault = record { store = s; vault = vault; log = []; readings = 0; ids = 0 }

pub new_mem_store-IsSound : IsSound (view new_mem_store)
unfolding view lookup find
new_mem_store-IsSound = record {
  tenant = λ k t e. absurd cc;
  connector = λ u k c e. absurd cc;
  agent = λ u k a e. absurd cc;
  swarm = λ u k sw e. absurd cc;
  admin = λ k u e. absurd cc;
}

default-accepted : validate_admin_user (dev_owner "") ≡ ok tt
unfolding validate_admin_user email_pattern
default-accepted = refl

given-accepted :
    (bypass : String)
    → (bypass == "") ≡ false
    → email_pattern bypass ≡ true
    → validate_admin_user (dev_owner bypass) ≡ ok tt
unfolding validate_admin_user
given-accepted bypass n e = rw (n, e, validate_admin_user) refl

dev_owner-accepted :
    (bypass : String)
    → (bypass ≡ "") ⊎ (email_pattern bypass ≡ true)
    → validate_admin_user (dev_owner bypass) ≡ ok tt
dev_owner-accepted bypass given = elim (text-cases bypass "") [
  | inl e ↦ rw e default-accepted
  | inr n ↦ elim given [ inl e ↦ rw e default-accepted | inr e ↦ given-accepted bypass n e ]
]

module _ (sorter : Sorter) (vars : String → String) where
  abbrev bypass : String
  bypass = vars "ADMIN_API_DEV_IAP_BYPASS_EMAIL"

  started-IsSound :
      (s : MemStore)
      → (bypass ≡ "") ⊎ (email_pattern bypass ≡ true)
      → start sorter vars ≡ ok (memory s)
      → IsSound (view s)
  unfolding mem_store_contract
  started-IsSound s given e = elim (start-dev sorter vars) [
    | inl (_, same) ↦
        let owner : MemStore = (put_admin_user (dev_owner bypass) new_mem_store).1 in
        let at : owner ≡ s = cc in
        subst (λ x. IsSound (view x)) at
          (subst IsSound
            (sym
              ((mem_store_contract sorter).writes (View.put_admin_user (dev_owner bypass))
                new_mem_store).1)
            (spec-IsSound (view new_mem_store) new_mem_store-IsSound
              (View.put_admin_user (dev_owner bypass))
              ((validate_admin_user_iff (dev_owner bypass)).0 (dev_owner-accepted bypass given))))
    | inr (_, _, (x, failed)) ↦ absurd cc
  ]

  -- A bypass e-mail that is given and is no address makes an Owner that is not accepted: the start
  -- succeeds all the same, on a store that is not in order.
  started-unchecked :
      (s : MemStore)
      → bypass ≢ ""
      → email_pattern bypass ≡ false
      → start sorter vars ≡ ok (memory s)
      → ¬ IsSound (view s)
  unfolding mem_store_contract validate_admin_user
  started-unchecked s given bad e sound = elim (start-dev sorter vars) [
    | inl (_, same) ↦
        let owner : MemStore = (put_admin_user (dev_owner bypass) new_mem_store).1 in
        let at : owner ≡ s = cc in
        let (result, change) =
          (mem_store_contract sorter).writes (View.put_admin_user (dev_owner bypass))
            new_mem_store in
        let kept : (view s).admin (dev_owner bypass).email ≡ some (dev_owner bypass) =
          subst (λ x. (view x).admin (dev_owner bypass).email ≡ some (dev_owner bypass)) at
            (ap (λ (v : View). v.admin (dev_owner bypass).email) change
              ∙ rw (eq_refl (dev_owner bypass).email) refl) in
        let fits =
          (validate_admin_user_iff (dev_owner bypass)).1
            (sound.admin (dev_owner bypass).email (dev_owner bypass) kept).1 in
        absurd (ground (arith, fits, bad, eq_iff bypass "", given))
    | inr (_, _, (x, failed)) ↦ absurd cc
  ]

module _ {V : Type 0} (sorter : Sorter) (host : Host) (json : Decoders) (assets : Assets)
    (vars : String → String) where
  -- If the start of the service succeeds, and the variable with the bypass e-mail is empty or an
  -- e-mail address, then at every moment of the service that main listens with, however many requests
  -- are served at once and however the steps of their programs interleave, every document of the store
  -- is accepted by its validator and stands under its own keys.
  pub main_mux-Sound :
      (s : MemStore) (vault : V) (ms : List (Act MemStore V Response)) (w : World MemStore V)
      → (vars "ADMIN_API_DEV_IAP_BYPASS_EMAIL" ≡ "")
        ⊎ (email_pattern (vars "ADMIN_API_DEV_IAP_BYPASS_EMAIL") ≡ true)
      → start sorter vars ≡ ok (memory s)
      → Reaches
          (main_auth (mem_store sorter) vars)
          assets
          (main_deps (mem_store sorter) host json vars)
          (first_world s vault)
          ms
          w
      → IsSound (view w.store)
  unfolding mem_store_contract main_deps-Wired
  main_mux-Sound s vault ms w given e i =
      Reaches-Sound (main_auth (mem_store sorter) vars) assets
        (main_deps (mem_store sorter) host json vars) (first_world s vault)
        (main_deps-Wired (mem_store sorter) host json vars (mem_store_contract sorter)) ms w
        (started-IsSound sorter vars s given e) i
