-- ===== src/Admin/Recorded.antt =====
-- The recorder (pkg/config/audit.go) adds an entry to the store's log, and touches no document.
use sclawion.Prelude.{arith, ◌≡◌, sym, subst, some}
use sclawion.Config.Types.{AuditEntry}
use sclawion.Config.Store.{Store}
use sclawion.Config.MemStore.View.{put_audit}
use sclawion.Config.Contract.{Contract}
use sclawion.Config.Sound.{IsSound, spec-IsSound}
use sclawion.Config.World.{Host, World}
use sclawion.Config.Audit.{Recorder, with_result, record_entry, with_id, with_time, persist, logged}
use sclawion.Admin.Trail.{completed}
use sclawion.Admin.Recording.{recording}
use sclawion.Admin.Act.{effect, visit, effect, visit}
use sclawion.Admin.Documents.{Sound, Keeps, Kept, bind, after}

module _ {S V : Type 0} {st : Store S} where
  pub store-record_entry :
      (h : Host) (rec : Recorder S) (e : AuditEntry) (w : World S V)
      → rec.store ≡ some st
      → (record_entry h rec e w).store ≡ (st.put_audit (completed h rec e w) w.store).1
  unfolding record_entry completed with_id with_time persist logged
  store-record_entry h rec e w same = ground arith

module _ {S V : Type 0} (h : Host) (rec : Recorder S) (e : AuditEntry) (w : World S V) where
  pub store-with_id : (with_id h rec e w).1.store ≡ w.store
  unfolding with_id
  store-with_id = ground arith

  pub store-with_time : (with_time h rec e w).1.store ≡ w.store
  unfolding with_time
  store-with_time = ground arith

module _ {S V : Type 0} {st : Store S} (k : Contract st) where
  Keeps-visit :
      {A : Type 0} (f : World S V → A × World S V)
      → ((w : World S V) → (f w).1.store ≡ w.store)
      → Keeps k (visit f)
  unfolding visit Kept
  Keeps-visit f p = record { kept = λ w s. (subst (λ x. IsSound (k.look x)) (sym (p w)) s, tt) }

  Keeps-effect :
      (f : World S V → World S V)
      → ((w : World S V) → Sound k w → Sound k (f w))
      → Keeps k (effect f)
  unfolding effect Kept
  Keeps-effect f p = record { kept = λ w s. (p w s, tt) }

  persist-Sound :
      (h : Host) (rec : Recorder S) (e : AuditEntry)
      → rec.store ≡ some st
      → (w : World S V) → Sound k w
      → Sound k (persist h rec e w)
  unfolding persist
  persist-Sound h rec e same w s = rw same (
      subst IsSound (sym (k.writes (put_audit e) w.store).1)
        (spec-IsSound (k.look w.store) s (put_audit e) tt))

module _ {S V : Type 0} {st : Store S} {k : Contract st} where
  pub Keeps-record :
      (h : Host) (rec : Recorder S) (e : AuditEntry)
      → rec.store ≡ some st
      → Keeps {V = V} k (recording h rec e)
  unfolding recording logged
  Keeps-record h rec e same =
      bind (Keeps-visit k (with_id h rec e) (store-with_id h rec e)) λ named.
        bind (Keeps-visit k (with_time h rec named) (store-with_time h rec named)) λ timed.
          after
            (Keeps-effect k (persist h rec (with_result timed))
              (persist-Sound k h rec (with_result timed) same))
            (Keeps-effect k (logged h rec (with_result timed)) λ w s. s)
