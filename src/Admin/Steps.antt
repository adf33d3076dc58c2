-- ===== src/Admin/Steps.antt =====
-- How many steps a program takes at most, whatever worlds the others leave to it.
pub mod Handlers
pub mod Pages
use sclawion.Prelude.{ℕ, zero, suc, ◌+◌, ◌≤◌, String, Bool, Option, none, some, arith, if_either}
use sclawion.Prelude.Int.{pos, eqb_ℤ}
use sclawion.Event.{Platform, Time}
use sclawion.Config.Errors.{Result}
use sclawion.Config.Types.{AuditEntry, SecretKind}
use sclawion.Config.Store.{Write}
use sclawion.Config.World.{Host, World, Writer}
use sclawion.Config.Audit.{Recorder}
use sclawion.Config.Secrets.{SecretRotator}
use sclawion.Admin.Http.{Body, Response}
use sclawion.Admin.AdminUsers.{time_or_now}
use sclawion.Admin.Connectors.{rotating}
use sclawion.Admin.Recording.{recording}
use sclawion.Admin.Act.{
  Act, Outcome, go, answered, ended, step, continue, ◌>>=◌, ◌>>◌, answer, reply, check, settle,
  fetch, save, attempt, peek, demand, present, time_now, effect, visit,
}

module _ {S V : Type 0} where
  unfoldable pub Within : {A : Type 0} → ℕ → Act S V A → Type 0
  Within n (ended o) = Unit
  Within zero (step u k) = ⊥
  Within (suc n) (step u k) = (w : World S V) → Within n (k w)

  -- The program ends after `n` steps at most.
  pub record Takes {A : Type 0} (n : ℕ) (m : Act S V A) : Type 0 where
    pub within : Within n m

  pub Within-mono : {A : Type 0} (n n' : ℕ) (m : Act S V A) → n ≤ n' → Within n m → Within n' m
  unfolding Within
  Within-mono n n' (ended o) h p = tt
  Within-mono zero n' (step u k) h p = absurd p
  Within-mono (suc n) zero (step u k) h p = absurd (omega arith)
  Within-mono (suc n) (suc n') (step u k) h p = λ w. Within-mono n n' (k w) (omega arith) (p w)

  Within-bind :
      {A B : Type 0} (n l n' : ℕ) (m : Act S V A) (f : A → Act S V B)
      → n + l ≤ n'
      → Within n m
      → ((a : A) → Takes l (f a))
      → Within n' (m >>= f)
  unfolding Within ◌>>=◌
  Within-bind n l n' (ended (go a)) f h p q = Within-mono l n' (f a) (omega arith) (q a).within
  Within-bind n l n' (ended (answered r)) f h p q = tt
  Within-bind zero l n' (step u k) f h p q = absurd p
  Within-bind (suc n) l zero (step u k) f h p q = absurd (omega arith)
  Within-bind (suc n) l (suc n') (step u k) f h p q =
      λ w. Within-bind n l n' (k w) f (omega arith) (p w) q

module _ {S V : Type 0} where
  pub Takes-le : {A : Type 0} {n n' : ℕ} {m : Act S V A} → Takes n m → n ≤ n' → Takes n' m
  Takes-le {n = n} {n' = n'} {m = m} p h = record { within = Within-mono n n' m h p.within }

  pub bind :
      {A B : Type 0} {n l : ℕ} {m : Act S V A} {f : A → Act S V B}
      → Takes n m
      → ((a : A) → Takes l (f a))
      → Takes (n + l) (m >>= f)
  bind {n = n} {l = l} {m = m} {f = f} p q = record {
    within = Within-bind n l (n + l) m f (omega arith) p.within q;
  }

  pub after :
      {B : Type 0} {n l : ℕ} {m : Act S V (Unit {0})} {c : Act S V B}
      → Takes n m
      → Takes l c
      → Takes (n + l) (m >> c)
  unfolding ◌>>◌
  after p q = bind p λ _. q

  pub Takes-ended : {A : Type 0} (o : Outcome A) → Takes {S = S} {V = V} 0 (ended o)
  unfolding Within
  Takes-ended o = record { within = tt }

  pub Takes-answer : (status : ℕ) (body : Body) → Takes {S = S} {V = V} 0 (answer status body)
  unfolding answer
  Takes-answer status body = Takes-ended _

  pub Takes-reply : (r : Response) → Takes {S = S} {V = V} 0 (reply r)
  unfolding reply
  Takes-reply r = Takes-ended _

  pub Takes-check : {A : Type 0} (r : Result A) → Takes {S = S} {V = V} 0 (check r)
  unfolding check
  Takes-check r = Takes-ended _

  pub Takes-settle : {A : Type 0} (r : Result A) → Takes {S = S} {V = V} 0 (settle r)
  unfolding settle
  Takes-settle r = Takes-ended _

  pub Takes-demand :
      (test : Bool) (status : ℕ) (message : String)
      → Takes {S = S} {V = V} 0 (demand test status message)
  unfolding demand
  Takes-demand test status message = Takes-ended _

  pub Takes-present :
      {A : Type 0} (o : Option A) (status : ℕ) (message : String)
      → Takes {S = S} {V = V} 0 (present o status message)
  unfolding present
  Takes-present none status message = Takes-ended _
  Takes-present (some a) status message = Takes-ended _

  pub Takes-fetch : {A : Type 0} (read : S → Result A) → Takes {V = V} 1 (fetch read)
  unfolding fetch Within
  Takes-fetch read = record { within = λ w. tt }

  pub Takes-peek : {A : Type 0} (read : S → A) → Takes {V = V} 1 (peek read)
  unfolding peek Within
  Takes-peek read = record { within = λ w. tt }

  pub Takes-save : (write : Write S) → Takes {V = V} 1 (save write)
  unfolding save Within
  Takes-save write = record { within = λ w. tt }

  Takes-attempt : {A : Type 0} (call : World S V → Result A × World S V) → Takes 1 (attempt call)
  unfolding attempt Within
  Takes-attempt call = record { within = λ w. tt }

  pub Takes-time_now : (h : Host) → Takes {S = S} {V = V} 1 (time_now h)
  unfolding time_now Within
  Takes-time_now h = record { within = λ w. tt }

  pub Takes-time_or_now : (h : Host) (t : Time) → Takes {S = S} {V = V} 1 (time_or_now h t)
  unfolding time_or_now
  Takes-time_or_now h t =
      if_either (Takes 1) (eqb_ℤ t (pos 0)) (Takes-time_now h)
        (Takes-le (Takes-ended _) (omega arith))

  Takes-visit : {A : Type 0} (f : World S V → A × World S V) → Takes 1 (visit f)
  unfolding visit Within
  Takes-visit f = record { within = λ w. tt }

  Takes-effect : (f : World S V → World S V) → Takes 1 (effect f)
  unfolding effect Within
  Takes-effect f = record { within = λ w. tt }

  -- Recorder.Record: an id, a time, a write, a line.
  pub Takes-recording :
      (h : Host) (rec : Recorder S) (e : AuditEntry) → Takes {V = V} 4 (recording h rec e)
  unfolding recording
  Takes-recording h rec e =
      bind (Takes-visit _)
        λ named. bind (Takes-visit _) λ timed. after (Takes-effect _) (Takes-effect _)

  -- SecretRotator.Rotate: a version, a read, a write.
  pub Takes-rotating :
      (rot : SecretRotator S V) (writer : Writer V) (tid : String) (p : Platform)
      (kind : SecretKind) (value : String)
      → Takes 3 (rotating rot writer tid p kind value)
  unfolding rotating
  Takes-rotating rot writer tid p kind value = bind (Takes-attempt _) λ ref.
      bind (Takes-fetch _) λ c. bind (Takes-settle _) λ c'. after (Takes-save _) (Takes-settle _)
