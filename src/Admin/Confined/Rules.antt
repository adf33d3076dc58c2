-- ===== src/Admin/Confined/Rules.antt =====
-- The steps of a handler, and what they change.
use sclawion.Prelude.{ℕ, ◌≡◌, refl, sym, ap, subst, ◌∙◌, String, Bool, Option, none, some}
use sclawion.Config.Errors.{Result, ok, err}
use sclawion.Config.Types.{AuditEntry}
use sclawion.Config.Store.{Store, Write}
use sclawion.Config.MemStore.View.{Op, run, put_audit}
use sclawion.Config.Tenancy.{Spares, Spares-same, Touches, Spares-spec}
use sclawion.Config.Contract.{Contract}
use sclawion.Config.World.{Host, World}
use sclawion.Config.Audit.{Recorder, with_id, with_time, with_result, persist, logged}
use sclawion.Admin.Http.{Body}
use sclawion.Admin.Recording.{recording}
use sclawion.Admin.Recorded.{store-with_id, store-with_time}
use sclawion.Admin.Documents.{Sound}
use sclawion.Admin.Reads.{Reading, Reading-peek}
use sclawion.Admin.Act.{
  Act, continue, stored, ◌>>=◌, answer, check, settle, fetch, save, attempt, peek, demand, present,
  time_now, effect, visit,
}
use sclawion.Admin.Confined.{IsOwn, Confined, Confined-Still, Confines, Confines-ended, bind, after}

module _ {S V : Type 0} {st : Store S} (k : Contract st) (tid : String) where
  persist-IsOwn :
      (h : Host) (rec : Recorder S) (e : AuditEntry)
      → rec.store ≡ some st
      → (w : World S V) → IsOwn k tid w (persist h rec e w)
  unfolding persist
  persist-IsOwn h rec e same w = rw same (
      subst (Spares tid (k.look w.store)) (sym (k.writes (put_audit e) w.store).1)
        (Spares-spec tid (k.look w.store) (put_audit e) tt))

module _ {S V : Type 0} {st : Store S} {k : Contract st} {tid : String} where
  -- What reads only changes nothing.
  pub Confines-Reading : {A : Type 0} (m : Act S V A) → Reading m → Confines k tid m
  Confines-Reading m p = record { confined = Confined-Still k tid m p.still }

  pub Confines-answer : (status : ℕ) (body : Body) → Confines {V = V} k tid (answer status body)
  unfolding answer
  Confines-answer status body = Confines-ended _

  pub Confines-check : {A : Type 0} (r : Result A) → Confines {V = V} k tid (check r)
  unfolding check
  Confines-check r = Confines-ended _

  pub Confines-demand :
      (test : Bool) (status : ℕ) (message : String)
      → Confines {V = V} k tid (demand test status message)
  unfolding demand
  Confines-demand test status message = Confines-ended _

  pub Confines-peek : {A : Type 0} (read : S → A) → Confines {V = V} k tid (peek read)
  Confines-peek read = Confines-Reading _ (Reading-peek read)

  -- A call that leaves the store alone.
  pub Confines-visit :
      {A : Type 0} (f : World S V → A × World S V)
      → ((w : World S V) → (f w).1.store ≡ w.store)
      → Confines k tid (visit f)
  unfolding visit Confined
  Confines-visit f same = record {
    confined = λ w h. (Spares-same tid _ _ (ap k.look (same w)), tt);
  }

  pub Confines-time_now : (h : Host) → Confines {V = V} k tid (time_now h)
  unfolding time_now Confined
  Confines-time_now h = record { confined = λ w i. (Spares-same tid _ _ refl, tt) }

  pub Confines-attempt :
      {A : Type 0} (call : World S V → Result A × World S V)
      → ((w : World S V) → (call w).1.store ≡ w.store)
      → Confines k tid (attempt call)
  unfolding attempt Confined
  Confines-attempt call same = record {
    confined = λ w h. (Spares-same tid _ _ (ap k.look (same w)), tt);
  }

  -- The write of a document of the tenant.
  pub Confines-write :
      (write : Write S) (op : Op)
      → ((s : S) → (write s).1 ≡ (run st op s).1)
      → Touches tid op
      → Confines {V = V} k tid (save write)
  unfolding save Confined
  Confines-write write op same p = record {
    confined = λ w h. (
      subst (Spares tid (k.look w.store)) (sym (ap k.look (same w.store) ∙ (k.writes op w.store).1))
          (Spares-spec tid (k.look w.store) op p),
      tt,
    );
  }

  pub Confines-save : (op : Op) → Touches tid op → Confines {V = V} k tid (save (run st op))
  Confines-save op p = Confines-write (run st op) op (λ s. refl) p

  Confined-read :
      {A B : Type 0} (x : Result A) (f : A → Act S V B)
      → ((a : A) → x ≡ ok a → Confines k tid (f a))
      → Confined k tid (continue (stored x) f)
  unfolding Confined
  Confined-read (ok a) f p = (p a refl).confined
  Confined-read (err e) f p = tt

  -- What was read was read from a store in order.
  pub fetched :
      {A B : Type 0} (read : S → Result A) {f : A → Act S V B}
      → ((w : World S V) (a : A) → Sound k w → read w.store ≡ ok a → Confines k tid (f a))
      → Confines k tid (fetch read >>= f)
  unfolding fetch ◌>>=◌ Confined
  fetched read {f = f} p = record {
    confined = λ w h. (Spares-same tid _ _ refl, Confined-read (read w.store) f λ a e. p w a h e);
  }

  pub settled :
      {A B : Type 0} (r : Result A) {f : A → Act S V B}
      → ((a : A) → r ≡ ok a → Confines k tid (f a))
      → Confines k tid (settle r >>= f)
  unfolding settle ◌>>=◌
  settled (ok a) p = p a refl
  settled (err e) p = Confines-ended _

  pub provided :
      {A B : Type 0} (o : Option A) (status : ℕ) (message : String) {f : A → Act S V B}
      → ((a : A) → o ≡ some a → Confines k tid (f a))
      → Confines k tid (present o status message >>= f)
  unfolding present ◌>>=◌
  provided none status message p = Confines-ended _
  provided (some a) status message p = p a refl

  -- Recorder.Record writes no document.
  pub Confines-recording :
      (h : Host) (rec : Recorder S) (e : AuditEntry)
      → rec.store ≡ some st
      → Confines {V = V} k tid (recording h rec e)
  unfolding recording logged effect Confined
  Confines-recording h rec e same =
      bind (Confines-visit (with_id h rec e) (store-with_id h rec e)) λ named.
        bind (Confines-visit (with_time h rec named) (store-with_time h rec named)) λ timed.
          after
            (record {
              confined = λ w i. (persist-IsOwn k tid h rec (with_result timed) same w, tt);
            })
            (record { confined = λ w i. (Spares-same tid _ _ refl, tt) })
