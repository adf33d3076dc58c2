-- ===== src/Admin/Act.antt =====
-- A handler's body as a program: steps on the world, each of which is atomic, up to an answer. It goes
-- on with a value or answers the request at once, as an early `return` after `http.Error` or
-- `writeJSON` does.
use sclawion.Prelude.{ℕ, String, Bool, Option, none, some, ◌≡◌, refl, if◌then◌else◌}
use sclawion.Event.{Time}
use sclawion.Config.Errors.{Result, ok, err}
use sclawion.Config.World.{World, Host, now, tick}
use sclawion.Config.Store.{Write}
use sclawion.Admin.Http.{Request, Response, Body, respond, failure, text, http_status_for}

pub data Outcome {ℓ} (A : Type ℓ) : Type ℓ where
  go : A → Outcome A
  answered : Response → Outcome A

-- `step u k` changes the world by `u` and goes on with `k`, both at the world that it finds.
pub data Act (S V A : Type 0) : Type 0 where
  ended : Outcome A → Act S V A
  step : (World S V → World S V) → (World S V → Act S V A) → Act S V A

abbrev pub Handler : Type 0 → Type 0 → Type 0
Handler S V = Request → Act S V Response

abbrev from : {A : Type 0} → ℕ → Result A → Outcome A
from status (ok a) = go a
from status (err e) = answered (respond status (failure e))

abbrev pub stored : {A : Type 0} → Result A → Outcome A
stored (ok a) = go a
stored (err e) = answered (respond (http_status_for e) (failure e))

abbrev pub finish : Outcome Response → Response
finish (go r) = r
finish (answered r) = r

module _ {S V : Type 0} where
  abbrev pub continue : {A B : Type 0} → Outcome A → (A → Act S V B) → Act S V B
  continue (go a) f = f a
  continue (answered r) f = ended (answered r)

  infixl 5 ◌>>=◌ ◌>>◌
  unfoldable pub ◌>>=◌ : {A B : Type 0} → Act S V A → (A → Act S V B) → Act S V B
  ended o >>= f = continue o f
  step u k >>= f = step u (λ w. k w >>= f)

  unfoldable pub ◌>>◌ : {B : Type 0} → Act S V (Unit {0}) → Act S V B → Act S V B
  m >> k = m >>= λ _. k

  unfoldable pub answer : ℕ → Body → Act S V Response
  answer status body = ended (go (respond status body))

  unfoldable pub reply : Response → Act S V Response
  reply r = ended (go r)

  -- `if err != nil { http.Error(w, err.Error(), http.StatusBadRequest); return }`
  unfoldable pub check : {A : Type 0} → Result A → Act S V A
  check r = ended (from 400 r)

  -- The same with httpStatusFor(err), where no step on the world is taken.
  unfoldable pub settle : {A : Type 0} → Result A → Act S V A
  settle r = ended (stored r)

  -- One call that works on the world: `if err != nil { http.Error(w, err.Error(),
  -- httpStatusFor(err)); return }`
  unfoldable pub attempt : {A : Type 0} → (World S V → Result A × World S V) → Act S V A
  attempt call = step (λ w. (call w).1) (λ w. ended (stored (call w).0))

  -- after a read
  unfoldable pub fetch : {A : Type 0} → (S → Result A) → Act S V A
  fetch read = step (λ w. w) (λ w. ended (stored (read w.store)))

  -- and after a write
  unfoldable pub save : Write S → Act S V (Unit {0})
  save write =
      step (λ w. record w { store = (write w.store).1 }) (λ w. ended (stored (write w.store).0))

  -- A read whose error the handler deals with itself.
  unfoldable pub peek : {A : Type 0} → (S → A) → Act S V A
  peek read = step (λ w. w) (λ w. ended (go (read w.store)))

  -- `if !test { http.Error(w, message, status); return }`
  unfoldable pub demand : Bool → ℕ → String → Act S V (Unit {0})
  demand test status message =
      ended (if test then go tt else answered (respond status (text message)))

  -- The value of a pointer; `http.Error` where it is nil.
  unfoldable pub present : {A : Type 0} → Option A → ℕ → String → Act S V A
  present (some a) status message = ended (go a)
  present none status message = ended (answered (respond status (text message)))

  unfoldable pub time_now : Host → Act S V Time
  time_now h = step (tick h) (λ w. ended (go (now h w)))

  unfoldable pub effect : (World S V → World S V) → Act S V (Unit {0})
  effect f = step f (λ w. ended (go tt))

  -- One call that works on the world and gives a value, whatever happens.
  unfoldable pub visit : {A : Type 0} → (World S V → A × World S V) → Act S V A
  visit f = step (λ w. (f w).1) (λ w. ended (go (f w).0))

  -- The program run alone.
  unfoldable pub run : {A : Type 0} → Act S V A → World S V → Outcome A × World S V
  run (ended o) w = (o, w)
  run (step u k) w = run (k w) (u w)

  -- What is left of a program after its first step, where that found the world `w`.
  unfoldable pub beyond : {A : Type 0} → Act S V A → World S V → Act S V A
  beyond (ended o) w = ended o
  beyond (step u k) w = k w

  -- The response of a body that answers on every path, run alone.
  infix 3 ◌▷◌
  unfoldable pub ◌▷◌ : Act S V Response → World S V → Response × World S V
  unfolding run
  m ▷ w = (finish (run m w).0, (run m w).1)

  -- What follows runs on what the first part leaves, or not at all.
  pub run-bind :
      {A B : Type 0} (m : Act S V A) (f : A → Act S V B) (w : World S V)
      → run (m >>= f) w ≡ run (continue (run m w).0 f) (run m w).1
  unfolding run ◌>>=◌
  run-bind (ended o) f w = refl
  run-bind (step u k) f w = run-bind (k w) f (u w)
