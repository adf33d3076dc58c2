-- ===== src/Config/Secrets/Names.antt =====
-- When two slots have the same name in the Secret Manager, and what a rotation then does.
use text.Mathlib.TextLemmas.{append_assoc}
use sclawion.Prelude.{◌≡◌, sym, ap, ◌∙◌, String, arith}
use sclawion.Event.{Platform}
use sclawion.Config.Types.{SecretKind}
use sclawion.Config.World.{World, Writer}
use sclawion.Text.{◌⧺◌}
use sclawion.Config.Secrets.{secret_namer, SecretRotator, rotate}

secret_namer-shifted :
    (project t a b : String) (kind : SecretKind)
    → secret_namer project (t ⧺ "-" ⧺ a) b kind ≡ secret_namer project t (a ⧺ "-" ⧺ b) kind
unfolding secret_namer
secret_namer-shifted project t a b kind = simp append_assoc

module _ {S V : Type 0} (r : SecretRotator S V) (writer : Writer V) (kind : SecretKind)
    (value : String) (w : World S V) where
  -- The version is added whatever comes after.
  vault-rotate :
      (tid : String) (p : Platform)
      → (rotate r writer tid p kind value w).1.vault
        ≡ (writer.add_version (secret_namer r.project_id tid p kind) value w.vault).1
  unfolding rotate
  vault-rotate tid p = ground arith

  -- A hyphen of a secret's name may end the tenant's part or stand in the platform's: a rotation for
  -- the tenant "t-a" and the platform "b" and one for the tenant "t" and the platform "a-b" leave the
  -- Secret Manager in the same state, whatever the texts t, a and b are, and whether or not the
  -- connectors exist.
  pub rotate-shifted :
      (t a b : String)
      → (rotate r writer (t ⧺ "-" ⧺ a) b kind value w).1.vault
        ≡ (rotate r writer t (a ⧺ "-" ⧺ b) kind value w).1.vault
  rotate-shifted t a b =
      vault-rotate (t ⧺ "-" ⧺ a) b
      ∙ ap (λ name. (writer.add_version name value w.vault).1)
          (secret_namer-shifted r.project_id t a b kind)
      ∙ sym (vault-rotate t (a ⧺ "-" ⧺ b))
