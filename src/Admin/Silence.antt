-- ===== src/Admin/Silence.antt =====
-- The parts of a handler before it records anything: they leave the structured log as it is, and where
-- they answer the request, it is with an error.
use sclawion.Prelude.{
  ℕ, ◌≤◌, ◌≡◌, refl, String, Bool, true, false, Option, none, some, arith, if_either,
}
use sclawion.Event.{Time}
use sclawion.Config.Errors.{
  Result, ok, err, Error, not_found, secret_missing, signature_mismatch, timestamp_skew, malformed,
  invalid, plain, wrapped,
}
use sclawion.Config.Store.{Write}
use sclawion.Config.World.{Host, World}
use sclawion.Admin.Http.{http_status_for}
use sclawion.Admin.AdminUsers.{time_or_now}
use sclawion.Prelude.Int.{pos, eqb_ℤ}
use sclawion.Admin.Act.{
  Outcome, go, answered, stored, continue, Act, ◌>>=◌, check, fetch, save, attempt, peek, demand,
  present, time_now, settle, ended, step,
}

pub http_status_for-le : (e : Error) → 400 ≤ http_status_for e
unfolding http_status_for
http_status_for-le not_found = omega arith
http_status_for-le secret_missing = omega arith
http_status_for-le (invalid r) = omega arith
http_status_for-le signature_mismatch = omega arith
http_status_for-le timestamp_skew = omega arith
http_status_for-le malformed = omega arith
http_status_for-le (plain s) = omega arith
http_status_for-le (wrapped s e) = http_status_for-le e

-- An answer that is given early is an error.
abbrev pub Refuses {ℓ} : {A : Type ℓ} → Outcome A → Type 0
Refuses (go a) = Unit
Refuses (answered r) = 400 ≤ r.status

stored-Refuses : {A : Type 0} (r : Result A) → Refuses (stored r)
stored-Refuses (ok a) = tt
stored-Refuses (err e) = http_status_for-le e

module _ {S V : Type 0} where
  unfoldable pub Quiet : {A : Type 0} → Act S V A → Type 0
  Quiet (ended o) = Refuses o
  Quiet (step u k) = (w : World S V) → ((u w).log ≡ w.log) × Quiet (k w)

  -- No step writes to the log, whatever world it finds.
  pub record Silent {A : Type 0} (m : Act S V A) : Type 0 where
    pub quiet : Quiet m

  pub Silent-check : {A : Type 0} (r : Result A) → Silent (check r)
  unfolding check Quiet
  Silent-check (ok a) = record { quiet = tt }
  Silent-check (err e) = record { quiet = omega arith }

  pub Silent-fetch : {A : Type 0} (read : S → Result A) → Silent (fetch read)
  unfolding fetch Quiet
  Silent-fetch read = record { quiet = λ w. (refl, stored-Refuses (read w.store)) }

  pub Silent-save : (write : Write S) → Silent (save write)
  unfolding save Quiet
  Silent-save write = record { quiet = λ w. (refl, stored-Refuses (write w.store).0) }

  pub Silent-peek : {A : Type 0} (read : S → A) → Silent (peek read)
  unfolding peek Quiet
  Silent-peek read = record { quiet = λ w. (refl, tt) }

  pub Silent-time_now : (h : Host) → Silent (time_now h)
  unfolding time_now Quiet
  Silent-time_now h = record { quiet = λ w. (refl, tt) }

  pub Silent-time_or_now : (h : Host) (t : Time) → Silent (time_or_now h t)
  unfolding time_or_now Quiet
  Silent-time_or_now h t =
      if_either Silent (eqb_ℤ t (pos 0)) (Silent-time_now h) (record { quiet = tt })

  pub Silent-demand :
      (test : Bool) (status : ℕ) (message : String)
      → 400 ≤ status
      → Silent (demand test status message)
  unfolding demand Quiet
  Silent-demand true status message h = record { quiet = tt }
  Silent-demand false status message h = record { quiet = h }

  pub Silent-present :
      {A : Type 0} (o : Option A) (status : ℕ) (message : String)
      → 400 ≤ status
      → Silent (present o status message)
  unfolding present Quiet
  Silent-present none status message h = record { quiet = h }
  Silent-present (some a) status message h = record { quiet = tt }

  pub Silent-attempt :
      {A : Type 0} (call : World S V → Result A × World S V)
      → ((w : World S V) → (call w).1.log ≡ w.log)
      → Silent (attempt call)
  unfolding attempt Quiet
  Silent-attempt call h = record { quiet = λ w. (h w, stored-Refuses (call w).0) }

  pub Silent-settle : {A : Type 0} (r : Result A) → Silent (settle r)
  unfolding settle Quiet
  Silent-settle r = record { quiet = stored-Refuses r }

  Quiet-outcome :
      {A B : Type 0} (o : Outcome A) (f : A → Act S V B)
      → Refuses o
      → ((a : A) → Silent (f a))
      → Quiet (continue o f)
  unfolding Quiet
  Quiet-outcome (go a) f h q = (q a).quiet
  Quiet-outcome (answered r) f h q = h

  Quiet-bind :
      {A B : Type 0} (m : Act S V A) (f : A → Act S V B)
      → Quiet m
      → ((a : A) → Silent (f a))
      → Quiet (m >>= f)
  unfolding Quiet ◌>>=◌
  Quiet-bind (ended o) f p q = Quiet-outcome o f p q
  Quiet-bind (step u k) f p q = λ w. ((p w).0, Quiet-bind (k w) f (p w).1 q)

  pub Silent-bind :
      {A B : Type 0} {m : Act S V A} {f : A → Act S V B}
      → Silent m
      → ((a : A) → Silent (f a))
      → Silent (m >>= f)
  Silent-bind {m = m} {f = f} p q = record { quiet = Quiet-bind m f p.quiet q }
