-- ===== src/Config/Audit/Ids.antt =====
-- newID: the id that an entry is given.
use sclawion.Prelude.{
  ◌==◌, ◌≢◌, ◌⊎◌, inl, inr, false, text-cases, suc, ◌≡◌, refl, ap, ◌∙◌, some, eq_iff, arith,
}
use sclawion.Text.{codes}
use sclawion.Bytes.{Bytes, AreBytes}
use sclawion.Bytes.Hex.{hex_decode, hex_decode-hex_encode}
use sclawion.Bytes.HexText.{codes-hex_text}
use sclawion.Config.Types.{AuditEntry}
use sclawion.Config.World.{Host, World}
use sclawion.Config.Audit.{Recorder, new_id, with_id}

pub new_id-decode : (b : Bytes) → AreBytes b → hex_decode (codes (new_id b)) ≡ some b
unfolding new_id
new_id-decode b h = ap hex_decode (codes-hex_text b h) ∙ hex_decode-hex_encode b h

module _ {S V : Type 0} (h : Host) (rec : Recorder S) (e : AuditEntry) (w : World S V) where
  given : e.id ≡ "" → (with_id h rec e w).0.id ≡ new_id (h.random_bytes w.ids)
  unfolding with_id
  given none = ground (arith, eq_iff e.id "")

  spent : e.id ≡ "" → (with_id h rec e w).1.ids ≡ suc w.ids
  unfolding with_id
  spent none = ground (arith, eq_iff e.id "")

  kept : (e.id == "") ≡ false → (with_id h rec e w) ≡ (e, w)
  unfolding with_id
  kept some' = rw some' refl

  -- An entry that has no id gets one whose hexadecimal decoding is the random bytes that were read for
  -- it, and they are not used again; an entry that has one keeps it, and nothing is read.
  pub with_id-fresh :
      AreBytes (h.random_bytes w.ids)
      → ((e.id ≡ "")
          × (hex_decode (codes (with_id h rec e w).0.id) ≡ some (h.random_bytes w.ids))
          × ((with_id h rec e w).1.ids ≡ suc w.ids))
        ⊎ ((e.id ≢ "") × (with_id h rec e w ≡ (e, w)))
  with_id-fresh b = elim (text-cases e.id "") [
    | inl none ↦ inl (
      none,
      ap (λ s. hex_decode (codes s)) (given none) ∙ new_id-decode (h.random_bytes w.ids) b,
      spent none,
    )
    | inr given' ↦ inr (λ x. ground (arith, eq_iff e.id ""), kept given')
  ]
