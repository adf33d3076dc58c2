-- ===== src/Admin/Phases.antt =====
-- pkg/config/audit.go as the steps of handlers: Recorder.Record takes an id, writes the entry to the
-- store and then a line to the structured log, and the other steps do none of these.
pub mod Rules
pub mod Handlers
pub mod Balance
use sclawion.Prelude.{
  ℕ, suc, ◌≡◌, refl, sym, ap, ◌∙◌, String, Bool, Option, none, some, List, [], ◌∷◌, ◌++◌, if_either,
  Option-cases, eq_iff, arith,
}
use sclawion.Prelude.Int.{pos, eqb_ℤ}
use sclawion.Event.{Time}
use sclawion.Config.Errors.{Result, ok, err}
use sclawion.Config.Types.{AuditEntry}
use sclawion.Config.Store.{Store, Write}
use sclawion.Config.MemStore.View
use sclawion.Config.MemStore.View.{
  Op, spec, run, put_tenant, delete_tenant, put_connector, put_agent, delete_agent, put_swarm,
  delete_swarm, put_admin_user, delete_admin_user, put_audit,
}
use sclawion.Config.Contract.{Contract}
use sclawion.Config.World.{Host, World, LogLine}
use sclawion.Config.Audit.{
  Recorder, new_id, log_line, with_id, with_time, with_result, persist, logged,
}
use sclawion.Admin.Http.{Body, Response}
use sclawion.Admin.AdminUsers.{time_or_now}
use sclawion.Admin.Recording.{recording}
use sclawion.Admin.Reads.{Still, Reading, Reading-fetch, Reading-peek}
use sclawion.Admin.Act.{
  Act, Outcome, go, answered, ended, step, continue, stored, ◌>>=◌, ◌>>◌, answer, check, settle,
  fetch, save, attempt, peek, demand, present, time_now, effect, visit,
}

-- Every write but that of an entry leaves the entries alone.
abbrev pub IsDocument : Op → Type 0
IsDocument (put_tenant t) = Unit
IsDocument (delete_tenant tid) = Unit
IsDocument (put_connector c) = Unit
IsDocument (put_agent a) = Unit
IsDocument (delete_agent tid id) = Unit
IsDocument (put_swarm sw) = Unit
IsDocument (delete_swarm tid id) = Unit
IsDocument (put_admin_user u) = Unit
IsDocument (delete_admin_user email) = Unit
IsDocument (put_audit e) = ⊥

pub audit-spec : (op : Op) (v : View.View) → IsDocument op → (spec op v).1.audit ≡ v.audit
audit-spec (put_tenant t) v p = refl
audit-spec (put_connector c) v p = refl
audit-spec (put_agent a) v p = refl
audit-spec (put_swarm sw) v p = refl
audit-spec (put_admin_user u) v p = refl
audit-spec (put_audit e) v p = absurd p
audit-spec (delete_tenant tid) v p = ground (arith, Option-cases (v.tenant tid))
audit-spec (delete_agent tid id) v p = ground (arith, Option-cases (v.agent tid id))
audit-spec (delete_swarm tid id) v p = ground (arith, Option-cases (v.swarm tid id))
audit-spec (delete_admin_user email) v p = ground (arith, Option-cases (v.admin email))

-- Where a program is between two of its steps: it has no entry in hand, or one with the id of that
-- random number, or one that stands in the store and not yet in the log.
pub data Phase : Type 0 where
  free : Phase
  named : ℕ → Phase
  kept : AuditEntry → Phase

abbrev IsFree : Phase → Type 0
IsFree free = Unit
IsFree (named n) = ⊥
IsFree (kept e) = ⊥

module _ {S V : Type 0} (h : Host) {st : Store S} (k : Contract st) where
  -- The entries of the store.
  abbrev pub entries : World S V → List AuditEntry
  entries w = (k.look w.store).audit

  abbrev pub IsCalm : World S V → World S V → Type 0
  IsCalm w v = (v.log ≡ w.log) × (v.ids ≡ w.ids) × (entries v ≡ entries w)

  -- A step from a phase to the next one.
  pub data Turns (w v : World S V) : Phase → Phase → Type 0 where
    calm : {p : Phase} → IsCalm w v → Turns w v p p
    names :
        {n : ℕ}
        → n ≡ w.ids
        → v.log ≡ w.log
        → v.ids ≡ suc w.ids
        → entries v ≡ entries w
        → Turns w v free (named n)
    keeps :
        {n : ℕ} (e : AuditEntry)
        → e.id ≡ new_id (h.random_bytes n)
        → v.log ≡ w.log
        → v.ids ≡ w.ids
        → entries v ≡ entries w ++ e ∷ []
        → Turns w v (named n) (kept e)
    logs :
        {e : AuditEntry}
        → v.log ≡ w.log ++ log_line e ∷ []
        → v.ids ≡ w.ids
        → entries v ≡ entries w
        → Turns w v (kept e) free

  -- Every step is one of these, whatever world it finds, and at the end there is no entry in hand.
  unfoldable pub Accounted : {A : Type 0} → Phase → Act S V A → Type 0
  Accounted p (ended o) = IsFree p
  Accounted p (step u m) = (w : World S V) → (q : Phase) × Turns w (u w) p q × Accounted q (m w)

  pub record Accounts {A : Type 0} (m : Act S V A) : Type 0 where
    pub accounted : Accounted free m

  pub Accounted-Still : {A : Type 0} (m : Act S V A) → Still m → Accounted free m
  unfolding Accounted Still
  Accounted-Still (ended o) p = tt
  Accounted-Still (step u n) p = λ w.
      let same = (p w).0 in
      (
        free,
        calm (ap (λ v. v.log) same, ap (λ v. v.ids) same, ap (λ v. (k.look v.store).audit) same),
        Accounted-Still (n w) (p w).1,
      )

module _ {S V : Type 0} {h : Host} {st : Store S} {k : Contract st} where
  Accounted-outcome :
      {A B : Type 0} (p : Phase) (o : Outcome A) (f : A → Act S V B)
      → IsFree p
      → ((a : A) → Accounts h k (f a))
      → Accounted h k p (continue o f)
  unfolding Accounted
  Accounted-outcome free (go a) f i q = (q a).accounted
  Accounted-outcome free (answered r) f i q = tt
  Accounted-outcome (named n) o f i q = absurd i
  Accounted-outcome (kept e) o f i q = absurd i

  Accounted-bind :
      {A B : Type 0} (p : Phase) (m : Act S V A) (f : A → Act S V B)
      → Accounted h k p m
      → ((a : A) → Accounts h k (f a))
      → Accounted h k p (m >>= f)
  unfolding Accounted ◌>>=◌
  Accounted-bind p (ended o) f i q = Accounted-outcome p o f i q
  Accounted-bind p (step u n) f i q =
      λ w. let (p', turn, rest) = i w in (p', turn, Accounted-bind p' (n w) f rest q)

  pub bind :
      {A B : Type 0} {m : Act S V A} {f : A → Act S V B}
      → Accounts h k m
      → ((a : A) → Accounts h k (f a))
      → Accounts h k (m >>= f)
  bind {m = m} {f = f} p q = record { accounted = Accounted-bind free m f p.accounted q }

  pub after :
      {B : Type 0} {m : Act S V (Unit {0})} {c : Act S V B}
      → Accounts h k m
      → Accounts h k c
      → Accounts h k (m >> c)
  unfolding ◌>>◌
  after p q = bind p λ _. q

  pub Accounts-ended : {A : Type 0} (o : Outcome A) → Accounts {V = V} h k (ended o)
  unfolding Accounted
  Accounts-ended o = record { accounted = tt }
