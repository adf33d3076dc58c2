-- ===== src/Admin/Trail.antt =====
-- What a handler that writes leaves in the structured log: one entry, which names the caller, where
-- it answers with success, and none where it answers with an error.
use sclawion.Prelude.{ℕ, ◌≤◌, ◌≡◌, refl, ap, ◌∙◌, ◌⊎◌, inl, inr, [], ◌∷◌, ◌++◌, eq_iff, arith}
use sclawion.Event.{Time}
use sclawion.Config.Types.{AuditEntry}
use sclawion.Config.World.{Host, World, LogLine, now}
use sclawion.Config.Audit.{Recorder, with_id, with_time, with_result, log_line, persist, logged}
use sclawion.Admin.Http.{Response, Body, Caller}
use sclawion.Admin.Silence.{Silent, Quiet, Refuses}
use sclawion.Admin.Recording.{recording}
use sclawion.Admin.Act.{
  Outcome, go, answered, ended, step, continue, finish, Act, ◌>>=◌, ◌>>◌, answer, time_now, effect,
  visit, run, ◌▷◌,
}

-- The line is that of a successful call by this caller.
pub record IsBy (c : Caller) (e : LogLine) : Type 0 where
  pub actor : e.actor ≡ c.email
  pub actor_role : e.actor_role ≡ c.role
  pub result : e.result ≡ "success"

module _ {S V : Type 0} (h : Host) (rec : Recorder S) where
  log-with_id : (e : AuditEntry) (w : World S V) → (with_id h rec e w).1.log ≡ w.log
  unfolding with_id
  log-with_id e w = ground arith

  log-with_time : (e : AuditEntry) (w : World S V) → (with_time h rec e w).1.log ≡ w.log
  unfolding with_time
  log-with_time e w = ground arith

  log-persist : (e : AuditEntry) (w : World S V) → (persist h rec e w).log ≡ w.log
  unfolding persist
  log-persist e w = ground arith

  log-logged : (e : AuditEntry) (w : World S V) → (logged h rec e w).log ≡ w.log ++ log_line e ∷ []
  unfolding logged
  log-logged e w = refl

  -- The entry, where the id was read at one world and the time at another.
  unfoldable stamped : AuditEntry → World S V → World S V → AuditEntry
  stamped e w v = with_result (with_time h rec (with_id h rec e w).0 v).0

  -- The entry of Record as one call.
  unfoldable pub completed : AuditEntry → World S V → AuditEntry
  completed e w = with_result (with_time h rec (with_id h rec e w).0 (with_id h rec e w).1).0

  stamped-IsBy :
      (c : Caller) (e : AuditEntry) (w v : World S V)
      → e.actor ≡ c.email
      → e.actor_role ≡ c.role
      → e.result ≡ ""
      → IsBy c (log_line (stamped e w v))
  unfolding stamped with_id with_time with_result
  stamped-IsBy c e w v a r s = ground (arith, eq_iff e.result "")

-- An error and no entry, or a success and exactly one entry, by the caller.
abbrev pub Mutates : {S V : Type 0} → Caller → World S V → Response × World S V → Type 0
Mutates c w out =
    ((400 ≤ out.0.status) × (out.1.log ≡ w.log))
    ⊎ ((out.0.status ≤ 204) × ((e : LogLine) × (out.1.log ≡ w.log ++ e ∷ []) × IsBy c e))

module _ {S V : Type 0} where
  -- What follows the recording answers with a success and logs no more.
  unfoldable pub Closing : Act S V Response → Type 0
  Closing (ended o) = (finish o).status ≤ 204
  Closing (step u k) = (w : World S V) → ((u w).log ≡ w.log) × Closing (k w)

  pub record Closes (m : Act S V Response) : Type 0 where
    pub closing : Closing m

  -- A step that writes a line of the caller, after which the body closes.
  abbrev pub Writes : Caller → World S V → World S V → Type 0
  Writes c w v = (e : LogLine) × (v.log ≡ w.log ++ e ∷ []) × IsBy c e

  -- A body answers with an error, and no step writes to the log; or one step does, and it closes.
  unfoldable pub Trailing : Caller → Act S V Response → Type 0
  Trailing c (ended o) = 400 ≤ (finish o).status
  Trailing c (step u k) =
      (w : World S V)
      → (((u w).log ≡ w.log) × Trailing c (k w)) ⊎ (Writes c w (u w) × Closing (k w))

  pub record Trails (c : Caller) (m : Act S V Response) : Type 0 where
    pub trailing : Trailing c m

  Trailing-outcome :
      {A : Type 0} (c : Caller) (o : Outcome A) (f : A → Act S V Response)
      → Refuses o
      → ((a : A) → Trails c (f a))
      → Trailing c (continue o f)
  unfolding Trailing
  Trailing-outcome c (go a) f h q = (q a).trailing
  Trailing-outcome c (answered r) f h q = h

  Trailing-bind :
      {A : Type 0} (c : Caller) (m : Act S V A) (f : A → Act S V Response)
      → Quiet m
      → ((a : A) → Trails c (f a))
      → Trailing c (m >>= f)
  unfolding Trailing Quiet ◌>>=◌
  Trailing-bind c (ended o) f p q = Trailing-outcome c o f p q
  Trailing-bind c (step u k) f p q = λ w. inl ((p w).0, Trailing-bind c (k w) f (p w).1 q)

  -- The rest of a body runs only if no answer was given; the log is as it was.
  pub bind :
      {A : Type 0} {c : Caller} {m : Act S V A} {f : A → Act S V Response}
      → Silent m
      → ((a : A) → Trails c (f a))
      → Trails c (m >>= f)
  bind {c = c} {m = m} {f = f} s k = record { trailing = Trailing-bind c m f s.quiet k }

  pub after :
      {c : Caller} {m : Act S V (Unit {0})} {k : Act S V Response}
      → Silent m
      → Trails c k
      → Trails c (m >> k)
  unfolding ◌>>◌
  after s t = bind s λ _. t

  pub Closes-answer : {status : ℕ} (body : Body) → status ≤ 204 → Closes (answer status body)
  unfolding answer Closing
  Closes-answer body h = record { closing = h }

  pub Closes-time_now :
      (h : Host) {f : Time → Act S V Response}
      → ((t : Time) → Closes (f t))
      → Closes (time_now h >>= f)
  unfolding time_now Closing ◌>>=◌
  Closes-time_now h k = record { closing = λ w. (refl, (k (now h w)).closing) }

  -- The end of a body: the entry is recorded, and the answer is a success.
  pub recorded :
      {c : Caller} (h : Host) (rec : Recorder S) (e : AuditEntry) {k : Act S V Response}
      → e.actor ≡ c.email
      → e.actor_role ≡ c.role
      → e.result ≡ ""
      → Closes k
      → Trails c (recording h rec e >> k)
  unfolding Trailing ◌>>=◌ ◌>>◌ effect visit recording stamped
  recorded {c = c} h rec e a r s k = record {
    trailing = λ named. inl (
      log-with_id h rec e named,
      λ timed. inl (
        log-with_time h rec (with_id h rec e named).0 timed,
        λ kept. inl (
          log-persist h rec (stamped h rec e named timed) kept,
          λ w. inr (
            (
              log_line (stamped h rec e named timed),
              log-logged h rec (stamped h rec e named timed) w,
              stamped-IsBy h rec c e named timed a r s,
            ),
            k.closing,
          ),
        ),
      ),
    );
  }

  -- The usual end.
  pub done :
      {c : Caller} (h : Host) (rec : Recorder S) (e : AuditEntry) {status : ℕ} (body : Body)
      → e.actor ≡ c.email
      → e.actor_role ≡ c.role
      → e.result ≡ ""
      → status ≤ 204
      → Trails c (recording h rec e >> answer status body)
  done h rec e body a r s low = recorded h rec e a r s (Closes-answer body low)

  run-Closing :
      (m : Act S V Response) (w : World S V)
      → Closing m
      → ((m ▷ w).0.status ≤ 204) × ((m ▷ w).1.log ≡ w.log)
  unfolding Closing ◌▷◌ run
  run-Closing (ended o) w p = (p, refl)
  run-Closing (step u k) w p =
      let (low, same) = run-Closing (k w) (u w) (p w).1 in (low, same ∙ (p w).0)

  run-Trailing :
      (c : Caller) (m : Act S V Response) (w₀ w : World S V)
      → w.log ≡ w₀.log
      → Trailing c m
      → Mutates c w₀ (m ▷ w)
  unfolding Trailing ◌▷◌ run
  run-Trailing c (ended o) w₀ w h p = inl (p, h)
  run-Trailing c (step u k) w₀ w h p = elim (p w) [
    | inl (same, rest) ↦ run-Trailing c (k w) w₀ (u w) (same ∙ h) rest
    | inr ((e, added, by), rest) ↦
        let (low, same) = run-Closing (k w) (u w) rest in
        inr (low, (e, same ∙ added ∙ ap (λ l. l ++ e ∷ []) h, by))
  ]

  -- Run alone, a body leaves its trail.
  pub Trails-Mutates :
      {c : Caller} {m : Act S V Response} (w : World S V) → Trails c m → Mutates c w (m ▷ w)
  Trails-Mutates {c = c} {m = m} w p = run-Trailing c m w w refl p.trailing
