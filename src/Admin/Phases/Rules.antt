-- ===== src/Admin/Phases/Rules.antt =====
-- The steps of a handler, and of Recorder.Record, as turns from phase to phase.
use sclawion.Prelude.{
  ℕ, ◌≡◌, refl, ap, ◌∙◌, String, Bool, Option, none, some, if_either, eq_iff, arith,
}
use sclawion.Prelude.Int.{pos, eqb_ℤ}
use sclawion.Event.{Time}
use sclawion.Config.Errors.{Result}
use sclawion.Config.Types.{AuditEntry}
use sclawion.Config.Store.{Store, Write}
use sclawion.Config.MemStore.View.{Op, run, put_audit}
use sclawion.Config.Contract.{Contract}
use sclawion.Config.World.{Host, World}
use sclawion.Config.Audit.{Recorder, new_id, with_id, with_time, with_result, persist, logged}
use sclawion.Admin.Http.{Body}
use sclawion.Admin.AdminUsers.{time_or_now}
use sclawion.Admin.Recording.{recording}
use sclawion.Admin.Reads.{Reading, Reading-fetch, Reading-peek}
use sclawion.Admin.Act.{
  Act, ◌>>=◌, ◌>>◌, answer, check, settle, fetch, save, attempt, peek, demand, present, time_now,
  effect, visit,
}
use sclawion.Admin.Phases.{
  Phase, free, named, kept, IsDocument, audit-spec, IsCalm, Turns, calm, names, keeps, logs,
  Accounted, Accounted-Still, Accounts, Accounts-ended,
}

module _ {S V : Type 0} {h : Host} {st : Store S} {k : Contract st} where
  -- What reads only has no entry in hand.
  pub Accounts-Reading : {A : Type 0} (m : Act S V A) → Reading m → Accounts h k m
  Accounts-Reading m p = record { accounted = Accounted-Still _ k m p.still }

  pub Accounts-answer : (status : ℕ) (body : Body) → Accounts {V = V} h k (answer status body)
  unfolding answer
  Accounts-answer status body = Accounts-ended _

  pub Accounts-check : {A : Type 0} (r : Result A) → Accounts {V = V} h k (check r)
  unfolding check
  Accounts-check r = Accounts-ended _

  pub Accounts-settle : {A : Type 0} (r : Result A) → Accounts {V = V} h k (settle r)
  unfolding settle
  Accounts-settle r = Accounts-ended _

  pub Accounts-demand :
      (test : Bool) (status : ℕ) (message : String)
      → Accounts {V = V} h k (demand test status message)
  unfolding demand
  Accounts-demand test status message = Accounts-ended _

  -- After the test of a pointer its value is known.
  pub provided :
      {A B : Type 0} (o : Option A) (status : ℕ) (message : String) {f : A → Act S V B}
      → ((a : A) → o ≡ some a → Accounts h k (f a))
      → Accounts h k (present o status message >>= f)
  unfolding present ◌>>=◌
  provided none status message p = Accounts-ended _
  provided (some a) status message p = p a refl

  pub Accounts-fetch : {A : Type 0} (read : S → Result A) → Accounts {V = V} h k (fetch read)
  Accounts-fetch read = Accounts-Reading _ (Reading-fetch read)

  pub Accounts-peek : {A : Type 0} (read : S → A) → Accounts {V = V} h k (peek read)
  Accounts-peek read = Accounts-Reading _ (Reading-peek read)

  pub Accounts-time_now : (h' : Host) → Accounts {V = V} h k (time_now h')
  unfolding time_now Accounted
  Accounts-time_now h' = record { accounted = λ w. (free, calm (refl, refl, refl), tt) }

  pub Accounts-time_or_now : (h' : Host) (t : Time) → Accounts {V = V} h k (time_or_now h' t)
  unfolding time_or_now
  Accounts-time_or_now h' t =
      if_either (Accounts h k) (eqb_ℤ t (pos 0)) (Accounts-time_now h') (Accounts-ended _)

  -- A call that works neither on the store, nor on the log, nor on the ids.
  pub Accounts-attempt :
      {A : Type 0} (call : World S V → Result A × World S V)
      → ((w : World S V) → IsCalm h k w (call w).1)
      → Accounts h k (attempt call)
  unfolding attempt Accounted
  Accounts-attempt call same = record { accounted = λ w. (free, calm (same w), tt) }

  -- The write of a document.
  pub Accounts-write :
      (write : Write S) (op : Op)
      → ((s : S) → (write s).1 ≡ (run st op s).1)
      → IsDocument op
      → Accounts {V = V} h k (save write)
  unfolding save Accounted
  Accounts-write write op same p = record {
    accounted = λ w. (
      free,
      calm (
        refl,
        refl,
        ap (λ s. (k.look s).audit) (same w.store)
            ∙ ap (λ v. v.audit) (k.writes op w.store).1
            ∙ audit-spec op (k.look w.store) p,
      ),
      tt,
    );
  }

  pub Accounts-save : (op : Op) → IsDocument op → Accounts {V = V} h k (save (run st op))
  Accounts-save op p = Accounts-write (run st op) op (λ s. refl) p

module _ {S V : Type 0} (h : Host) (rec : Recorder S) where
  id-stamped :
      (e : AuditEntry) (w v : World S V)
      → e.id ≡ ""
      → (with_result (with_time h rec (with_id h rec e w).0 v).0).id ≡ new_id (h.random_bytes w.ids)
  unfolding with_id with_time with_result
  id-stamped e w v unnamed = ground (arith, eq_iff e.id "")

module _ {S V : Type 0} (h : Host) (rec : Recorder S) {st : Store S} {k : Contract st} where
  with_id-Turns :
      (e : AuditEntry) (w : World S V)
      → e.id ≡ ""
      → Turns h k w (with_id h rec e w).1 free (named w.ids)
  unfolding with_id
  with_id-Turns e w unnamed = rw ((eq_iff e.id "").1 unnamed) (names refl refl refl refl)

  with_time-Turns :
      (e : AuditEntry) (w : World S V) (p : Phase) → Turns h k w (with_time h rec e w).1 p p
  unfolding with_time
  with_time-Turns e w p =
      if_either (λ (x : AuditEntry × World S V). Turns h k w x.1 p p) (eqb_ℤ e.at (pos 0))
        (calm (refl, refl, refl)) (calm (refl, refl, refl))

  persist-Turns :
      (n : ℕ) (e : AuditEntry) (w : World S V)
      → rec.store ≡ some st
      → e.id ≡ new_id (h.random_bytes n)
      → Turns h k w (persist h rec e w) (named n) (kept e)
  unfolding persist
  persist-Turns n e w same id =
      rw same (keeps e id refl refl (ap (λ v. v.audit) (k.writes (put_audit e) w.store).1))

  logged-Turns : (e : AuditEntry) (w : World S V) → Turns h k w (logged h rec e w) (kept e) free
  unfolding logged
  logged-Turns e w = logs refl refl refl

  -- Recorder.Record gives an entry that has no id one, and writes it to both the store and the log.
  pub Accounts-recording :
      (e : AuditEntry) → rec.store ≡ some st → e.id ≡ "" → Accounts {V = V} h k (recording h rec e)
  unfolding Accounted ◌>>=◌ ◌>>◌ effect visit recording
  Accounts-recording e same unnamed = record {
    accounted = λ w. (
      named w.ids,
      with_id-Turns e w unnamed,
      λ v. (
        named w.ids,
        with_time-Turns (with_id h rec e w).0 v (named w.ids),
        λ x. (
          kept (with_result (with_time h rec (with_id h rec e w).0 v).0),
          persist-Turns w.ids _ x same (id-stamped h rec e w v unnamed),
          λ y. (free, logged-Turns _ y, tt),
        ),
      ),
    );
  }
