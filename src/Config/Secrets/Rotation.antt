-- ===== src/Config/Secrets/Rotation.antt =====
-- What a rotation does: to the connector's references, and with the value of the secret.
use sclawion.Prelude.{
  ◌≡◌, ◌⊎◌, inl, inr, String, ◌==◌, some, if◌then◌else◌, arith, Option-cases, text-cases, eq_iff,
}
use sclawion.Event.{Platform}
use sclawion.Config.Errors.{Result, ok, err, Error, wrapped, plain, not_found, Result-cases}
use sclawion.Config.Types.{SecretKind, SecretRef, ConnectorConfig, kind_signing, kind_oauth}
use sclawion.Config.Store.{Store}
use sclawion.Config.MemStore.View.{spec, put_connector}
use sclawion.Config.Contract.{Contract}
use sclawion.Config.World.{World, Writer}
use sclawion.Config.Secrets.{SecretRotator, rotate, secret_namer, set_ref}

module _ {S V : Type 0} where
  -- Two worlds that differ at most in what the Secret Manager holds.
  pub record SameButVault (w v : World S V) : Type 0 where
    pub store : w.store ≡ v.store
    pub log : w.log ≡ v.log
    pub readings : w.readings ≡ v.readings
    pub ids : w.ids ≡ v.ids

module _ {S V : Type 0} (r : SecretRotator S V) (writer : Writer V) (tid : String) (p : Platform)
    (kind : SecretKind) (w : World S V) where
  -- Two rotations that differ only in the value of the secret, where the Secret Manager answers both
  -- alike, return the same result and leave the same store, log, clock and identifiers.
  pub rotate-value :
      (a b : String)
      → (writer.add_version (secret_namer r.project_id tid p kind) a w.vault).0
        ≡ (writer.add_version (secret_namer r.project_id tid p kind) b w.vault).0
      → ((rotate r writer tid p kind a w).0 ≡ (rotate r writer tid p kind b w).0)
        × SameButVault (rotate r writer tid p kind a w).1 (rotate r writer tid p kind b w).1
  unfolding rotate
  rotate-value a b e = (
    ground arith,
    record {
      store = ground arith;
      log = ground arith;
      readings = ground arith;
      ids = ground arith;
    },
  )

-- The connector with the reference in the slot of the kind, which is one of the two kinds.
abbrev pub rotated : SecretKind → SecretRef → ConnectorConfig → ConnectorConfig
rotated kind ref c =
    if kind == kind_signing
    then record c { signing_secret_ref = ref }
    else record c { oauth_token_ref = ref }

-- A rotation that fails leaves the documents as they were; one that succeeds returns the reference
-- of the version that the Secret Manager added, and has put it into the connector's slot.
abbrev pub Rotates :
    {S V : Type 0} {st : Store S}
    → Contract st
    → String
    → Platform
    → SecretKind
    → Result SecretRef
    → World S V
    → Result SecretRef × World S V
    → Type 0
Rotates k tid p kind version w out =
    ((e : Error) × (out.0 ≡ err e) × (k.look out.1.store ≡ k.look w.store))
    ⊎ ((ref : SecretRef) × (c : ConnectorConfig) × (version ≡ ok ref)
        × (out.0 ≡ ok ref)
        × ((kind ≡ kind_signing) ⊎ (kind ≡ kind_oauth))
        × ((k.look w.store).connector tid p ≡ some c)
        × (k.look out.1.store ≡ (spec (put_connector (rotated kind ref c)) (k.look w.store)).1))

module _ {S V : Type 0} (r : SecretRotator S V) (k : Contract r.store) (writer : Writer V)
    (tid : String) (p : Platform) (kind : SecretKind) (value : String) (w : World S V) where
  abbrev version : Result SecretRef
  version = (writer.add_version (secret_namer r.project_id tid p kind) value w.vault).0

  put_rotated :
      (ref : SecretRef) (c : ConnectorConfig)
      → version ≡ ok ref
      → (k.look w.store).connector tid p ≡ some c
      → (kind ≡ kind_signing) ⊎ (kind ≡ kind_oauth)
      → Rotates k tid p kind version w (rotate r writer tid p kind value w)
  unfolding rotate set_ref
  put_rotated ref c e f known =
      let (result, effect) = k.writes (put_connector (rotated kind ref c)) w.store in
      inr (
        ref,
        c,
        e,
        ground (
          arith,
          e,
          f,
          k.connector tid p w.store,
          result,
          known,
          eq_iff kind kind_signing,
          eq_iff kind kind_oauth,
        ),
        known,
        f,
        ground (
          arith,
          e,
          f,
          k.connector tid p w.store,
          effect,
          known,
          eq_iff kind kind_signing,
          eq_iff kind kind_oauth,
        ),
      )

  -- With a store that keeps the contract: a rotation that fails changes no document; one that succeeds
  -- has a kind out of the two, found the connector, returns the reference that the Secret Manager
  -- returned, and writes the connector with that reference in the slot of the kind and nothing else
  -- changed.
  pub rotate-Rotates : Rotates k tid p kind version w (rotate r writer tid p kind value w)
  unfolding rotate set_ref
  rotate-Rotates = elim (Result-cases version) [
    | inl (x, e) ↦ inl (wrapped "rotate: " x, ground (arith, e), ground (arith, e))
    | inr (ref, e) ↦ elim (Option-cases ((k.look w.store).connector tid p)) [
      | inl f ↦ inl (
        wrapped "rotate: connector not found: " not_found,
        ground (arith, e, f, k.connector tid p w.store),
        ground (arith, e, f, k.connector tid p w.store),
      )
      | inr (c, f) ↦ elim (text-cases kind kind_signing) [
        | inl s ↦ put_rotated ref c e f (inl s)
        | inr s ↦ elim (text-cases kind kind_oauth) [
          | inl o ↦ put_rotated ref c e f (inr o)
          | inr o ↦ inl (
            plain "rotate: unknown kind",
            ground (arith, e, f, s, o, k.connector tid p w.store),
            ground (arith, e, f, s, o, k.connector tid p w.store),
          )
        ]
      ]
    ]
  ]
