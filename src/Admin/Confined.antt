-- ===== src/Admin/Confined.antt =====
-- Programs that change the documents of one tenant only: rules by which a body has this property.
pub mod Rules
pub mod Handlers
use sclawion.Prelude.{
  ℕ, ◌≡◌, ◌≢◌, refl, sym, ap, subst, ◌∙◌, inl, inr, String, Bool, Option, none, some, if_either,
  eq_iff, eq-false_of_ne, Option-cases, arith,
}
use sclawion.Prelude.Int.{pos, eqb_ℤ}
use sclawion.Event.{Time, Platform}
use sclawion.Config.Errors.{Result, ok, err}
use sclawion.Config.Types.{AuditEntry}
use sclawion.Config.Store.{Store, Write}
use sclawion.Config.MemStore.View
use sclawion.Config.MemStore.View.{
  Op, update, update₂, spec, run, put_tenant, delete_tenant, put_connector, put_agent, delete_agent,
  put_swarm, delete_swarm, put_admin_user, delete_admin_user, put_audit,
}
use sclawion.Config.Tenancy.{Spares, Spares-same, Touches, Spares-spec}
use sclawion.Config.Contract.{Contract}
use sclawion.Config.World.{Host, World}
use sclawion.Config.Audit.{Recorder, with_id, with_time, with_result, persist, logged}
use sclawion.Admin.Http.{Body, Response}
use sclawion.Admin.AdminUsers.{time_or_now}
use sclawion.Admin.Recording.{recording}
use sclawion.Admin.Recorded.{store-with_id, store-with_time}
use sclawion.Admin.Documents.{Sound}
use sclawion.Admin.Reads.{Still, Reading, Reading-fetch, Reading-peek}
use sclawion.Admin.Act.{
  Act, Outcome, go, answered, ended, step, continue, stored, ◌>>=◌, ◌>>◌, answer, check, settle,
  fetch, save, attempt, peek, demand, present, time_now, effect, visit,
}

module _ {S V : Type 0} {st : Store S} (k : Contract st) (tid : String) where
  -- A step from `w` to `v` changes the documents of that tenant only, if those of the store are in
  -- order.
  abbrev pub IsOwn : World S V → World S V → Type 0
  IsOwn w v = Spares tid (k.look w.store) (k.look v.store)

  unfoldable pub Confined : {A : Type 0} → Act S V A → Type 0
  Confined (ended o) = Unit
  Confined (step u m) = (w : World S V) → Sound k w → IsOwn w (u w) × Confined (m w)

  pub record Confines {A : Type 0} (m : Act S V A) : Type 0 where
    pub confined : Confined m

  pub Confined-Still : {A : Type 0} (m : Act S V A) → Still m → Confined m
  unfolding Confined Still
  Confined-Still (ended o) p = tt
  Confined-Still (step u n) p =
      λ w h. (Spares-same tid _ _ (ap (λ v. k.look v.store) (p w).0), Confined-Still (n w) (p w).1)

module _ {S V : Type 0} {st : Store S} {k : Contract st} {tid : String} where
  Confined-outcome :
      {A B : Type 0} (o : Outcome A) (f : A → Act S V B)
      → ((a : A) → Confines k tid (f a))
      → Confined k tid (continue o f)
  unfolding Confined
  Confined-outcome (go a) f q = (q a).confined
  Confined-outcome (answered r) f q = tt

  Confined-bind :
      {A B : Type 0} (m : Act S V A) (f : A → Act S V B)
      → Confined k tid m
      → ((a : A) → Confines k tid (f a))
      → Confined k tid (m >>= f)
  unfolding Confined ◌>>=◌
  Confined-bind (ended o) f p q = Confined-outcome o f q
  Confined-bind (step u n) f p q = λ w h. ((p w h).0, Confined-bind (n w) f (p w h).1 q)

  pub bind :
      {A B : Type 0} {m : Act S V A} {f : A → Act S V B}
      → Confines k tid m
      → ((a : A) → Confines k tid (f a))
      → Confines k tid (m >>= f)
  bind {m = m} {f = f} p q = record { confined = Confined-bind m f p.confined q }

  pub after :
      {B : Type 0} {m : Act S V (Unit {0})} {c : Act S V B}
      → Confines k tid m
      → Confines k tid c
      → Confines k tid (m >> c)
  unfolding ◌>>◌
  after p q = bind p λ _. q

  pub Confines-ended : {A : Type 0} (o : Outcome A) → Confines {V = V} k tid (ended o)
  unfolding Confined
  Confines-ended o = record { confined = tt }
