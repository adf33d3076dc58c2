-- ===== src/Admin/Rotating.antt =====
-- The steps of a rotation: run alone they are SecretRotator.Rotate, and among other programs they keep
-- the documents of the store sound.
use sclawion.Prelude.{◌≡◌, refl, sym, ◌∙◌, subst, inl, inr, String, some, text-cases, eq_iff, arith}
use sclawion.Event.{Platform}
use sclawion.Config.Errors.{Result, ok, err, wrap, Result-cases}
use sclawion.Config.Types.{SecretKind, SecretRef, ConnectorConfig, kind_signing, kind_oauth}
use sclawion.Config.MemStore.View
use sclawion.Config.Contract.{Contract, some-of_found}
use sclawion.Config.Store.{Store}
use sclawion.Config.World.{World, Writer}
use sclawion.Config.Secrets.{SecretRotator, rotate, set_ref, secret_namer}
use sclawion.Config.Validate.Accepts.{IsConnector}
use sclawion.Admin.Act.{◌>>=◌, ◌>>◌, stored, run, attempt, fetch, settle, save}
use sclawion.Admin.Connectors.{rotating, write_back}
use sclawion.Admin.Documents.{
  Keeps, Keeps-attempt, Keeps-write, Keeps-ended, fetched, settled, bind, after,
}

pub wrap-ok : {A : Type 0} (s : String) (x : Result A) (a : A) → wrap s x ≡ ok a → x ≡ ok a
wrap-ok s (ok b) a h = h
wrap-ok s (err e) a h = absurd cc

-- The connector with another reference in one of its slots is as good.
set_ref-IsConnector :
    (kind : SecretKind) (ref : SecretRef) (c c' : ConnectorConfig)
    → set_ref kind ref c ≡ ok c'
    → IsConnector c
    → IsConnector c'
unfolding set_ref
set_ref-IsConnector kind ref c c' e h = elim (text-cases kind kind_signing) [
  | inl s ↦
      let same : record c { signing_secret_ref = ref } ≡ c' =
        ground (arith, e, eq_iff kind kind_signing) in
      subst IsConnector same (record {
        identifier = h.identifier;
        known = h.known;
        path = h.path;
        least = h.least;
        most = h.most;
      })
  | inr s ↦ elim (text-cases kind kind_oauth) [
    | inl o ↦
        let same : record c { oauth_token_ref = ref } ≡ c' =
          ground (arith, e, s, eq_iff kind kind_oauth) in
        subst IsConnector same (record {
          identifier = h.identifier;
          known = h.known;
          path = h.path;
          least = h.least;
          most = h.most;
        })
    | inr o ↦ absurd (ground (arith, e, s, o))
  ]
]

module _ {S V : Type 0} (rot : SecretRotator S V) (k : Contract rot.store) where
  pub got :
      (tid : String) (p : Platform) (s : S) (c : ConnectorConfig)
      → rot.store.get_connector tid p s ≡ ok c
      → (k.look s).connector tid p ≡ some c
  got tid p s c e = some-of_found _ c (sym (k.connector tid p s) ∙ e)

  kept_here :
      (writer : Writer V) (tid : String) (p : Platform) (kind : SecretKind) (value : String)
      → Keeps k (rotating rot writer tid p kind value)
  unfolding rotating settle
  kept_here writer tid p kind value = bind (Keeps-attempt _ λ w. refl) λ ref. fetched _ λ w c h e.
      settled _ λ c' e'.
        let found = got tid p w.store c (wrap-ok _ _ c e) in
        after
          (Keeps-write (write_back rot c') (View.put_connector c') (λ s. refl)
            (set_ref-IsConnector kind ref c c' e' (h.connector tid p c found).2))
          (Keeps-ended _)

pub Keeps-rotating :
    {S V : Type 0} {st : Store S} (k : Contract st) (rot : SecretRotator S V) (writer : Writer V)
    (tid : String) (p : Platform) (kind : SecretKind) (value : String)
    → rot.store ≡ st
    → Keeps k (rotating rot writer tid p kind value)
Keeps-rotating k rot writer tid p kind value same =
    subst (λ st. (k : Contract st) → Keeps k (rotating rot writer tid p kind value)) same
      (λ k. kept_here rot k writer tid p kind value) k

module _ {S V : Type 0} (rot : SecretRotator S V) (writer : Writer V) (tid : String) (p : Platform)
    (kind : SecretKind) (value : String) (w : World S V) where
  -- The steps of a rotation, run one after the other with nothing between them, are Rotate: the same
  -- result and the same world, on all paths.
  pub run-rotating :
      run (rotating rot writer tid p kind value) w
      ≡ (stored (rotate rot writer tid p kind value w).0, (rotate rot writer tid p kind value w).1)
  unfolding rotating run ◌>>=◌ ◌>>◌ attempt fetch settle save rotate
  run-rotating =
      let version = (writer.add_version (secret_namer rot.project_id tid p kind) value w.vault).0 in
      elim (Result-cases version) [
        | inl (x, e) ↦ ground (arith, e)
        | inr (ref, e) ↦ elim (Result-cases (rot.store.get_connector tid p w.store)) [
          | inl (x, f) ↦ ground (arith, e, f)
          | inr (c, f) ↦ elim (Result-cases (set_ref kind ref c)) [
            | inl (x, g) ↦ ground (arith, e, f, g)
            | inr (c', g) ↦ elim (Result-cases (rot.store.put_connector c' w.store).0) [
              | inl (x, q) ↦ ground (arith, e, f, g, q)
              | inr (u, q) ↦ ground (arith, e, f, g, q)
            ]
          ]
        ]
      ]
