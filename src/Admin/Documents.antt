-- ===== src/Admin/Documents.antt =====
-- What a handler does to the documents of the store: rules by which a body keeps them sound.
use sclawion.Prelude.{ℕ, ◌≡◌, refl, sym, subst, String, Bool, Option, none, some, if_either}
use sclawion.Prelude.Int.{pos, eqb_ℤ}
use sclawion.Event.{Time}
use sclawion.Config.Errors.{Result, ok, err}
use sclawion.Config.Store.{Store, Write}
use sclawion.Config.MemStore.View.{Op, run}
use sclawion.Config.Contract.{Contract}
use sclawion.Config.Sound.{IsSound, Writes, spec-IsSound}
use sclawion.Config.World.{Host, World}
use sclawion.Admin.Http.{Body, Response}
use sclawion.Admin.AdminUsers.{time_or_now}
use sclawion.Admin.Reads.{Still, Reading, Reading-fetch, Reading-peek}
use sclawion.Admin.Act
use sclawion.Admin.Act.{
  ◌▷◌, Act, Outcome, go, answered, ended, step, continue, stored, ◌>>=◌, ◌>>◌, answer, check,
  settle, fetch, save, attempt, peek, demand, present, time_now, effect, visit,
}

module _ {S V : Type 0} {st : Store S} (k : Contract st) where
  abbrev pub Sound : World S V → Type 0
  Sound w = IsSound (k.look w.store)

  -- No step takes the documents out of order, whatever the other programs did before it to a store in
  -- order.
  unfoldable pub Kept : {A : Type 0} → Act S V A → Type 0
  Kept (ended o) = Unit
  Kept (step u m) = (w : World S V) → Sound w → Sound (u w) × Kept (m w)

  Kept-Still : {A : Type 0} (m : Act S V A) → Still m → Kept m
  unfolding Kept Still
  Kept-Still (ended o) p = tt
  Kept-Still (step u n) p = λ w h. (subst Sound (sym (p w).0) h, Kept-Still (n w) (p w).1)

  pub record Keeps {A : Type 0} (m : Act S V A) : Type 0 where
    pub kept : Kept m

module _ {S V : Type 0} {st : Store S} {k : Contract st} where
  Kept-outcome :
      {A B : Type 0} (o : Outcome A) (f : A → Act S V B)
      → ((a : A) → Keeps k (f a))
      → Kept k (continue o f)
  unfolding Kept
  Kept-outcome (go a) f q = (q a).kept
  Kept-outcome (answered r) f q = tt

  Kept-bind :
      {A B : Type 0} (m : Act S V A) (f : A → Act S V B)
      → Kept k m
      → ((a : A) → Keeps k (f a))
      → Kept k (m >>= f)
  unfolding Kept ◌>>=◌
  Kept-bind (ended o) f p q = Kept-outcome o f q
  Kept-bind (step u n) f p q = λ w h. ((p w h).0, Kept-bind (n w) f (p w h).1 q)

  pub bind :
      {A B : Type 0} {m : Act S V A} {f : A → Act S V B}
      → Keeps k m
      → ((a : A) → Keeps k (f a))
      → Keeps k (m >>= f)
  bind {m = m} {f = f} p q = record { kept = Kept-bind m f p.kept q }

  pub after :
      {B : Type 0} {m : Act S V (Unit {0})} {c : Act S V B}
      → Keeps k m
      → Keeps k c
      → Keeps k (m >> c)
  unfolding ◌>>◌
  after p q = bind p λ _. q

  -- What reads only keeps the documents.
  pub Keeps-Reading : {A : Type 0} (m : Act S V A) → Reading m → Keeps k m
  Keeps-Reading m p = record { kept = Kept-Still k m p.still }

  pub Keeps-ended : {A : Type 0} (o : Outcome A) → Keeps {V = V} k (ended o)
  unfolding Kept
  Keeps-ended o = record { kept = tt }

  pub Keeps-answer : (status : ℕ) (body : Body) → Keeps {V = V} k (answer status body)
  unfolding answer
  Keeps-answer status body = Keeps-ended _

  pub Keeps-fetch : {A : Type 0} (read : S → Result A) → Keeps {V = V} k (fetch read)
  Keeps-fetch read = Keeps-Reading _ (Reading-fetch read)

  pub Keeps-peek : {A : Type 0} (read : S → A) → Keeps {V = V} k (peek read)
  Keeps-peek read = Keeps-Reading _ (Reading-peek read)

  -- A step that leaves the store alone.
  pub Keeps-time_now : (h : Host) → Keeps {V = V} k (time_now h)
  unfolding time_now Kept
  Keeps-time_now h = record { kept = λ w s. (s, tt) }

  pub Keeps-attempt :
      {A : Type 0} (call : World S V → Result A × World S V)
      → ((w : World S V) → (call w).1.store ≡ w.store)
      → Keeps k (attempt call)
  unfolding attempt Kept
  Keeps-attempt call same = record {
    kept = λ w h. (subst (λ s. IsSound (k.look s)) (sym (same w)) h, tt);
  }

  pub Keeps-time_or_now : (h : Host) (t : Time) → Keeps {V = V} k (time_or_now h t)
  unfolding time_or_now
  Keeps-time_or_now h t = if_either (Keeps k) (eqb_ℤ t (pos 0)) (Keeps-time_now h) (Keeps-ended _)

  pub Keeps-demand :
      (test : Bool) (status : ℕ) (message : String) → Keeps {V = V} k (demand test status message)
  unfolding demand
  Keeps-demand test status message = Keeps-ended _

  -- The document that is written was accepted.
  pub Keeps-write :
      (write : Write S) (op : Op)
      → ((s : S) → (write s).1 ≡ (run st op s).1)
      → Writes op
      → Keeps {V = V} k (save write)
  unfolding save Kept
  Keeps-write write op same p = record {
    kept = λ w h. (
      subst (λ s. IsSound (k.look s)) (sym (same w.store))
          (subst IsSound (sym (k.writes op w.store).1) (spec-IsSound (k.look w.store) h op p)),
      tt,
    );
  }

  pub Keeps-save : (op : Op) → Writes op → Keeps {V = V} k (save (run st op))
  Keeps-save op p = Keeps-write (run st op) op (λ s. refl) p

  -- After a check the value is known to be accepted.
  pub checked :
      {A B : Type 0} (r : Result A) {f : A → Act S V B}
      → ((a : A) → r ≡ ok a → Keeps k (f a))
      → Keeps k (check r >>= f)
  unfolding check ◌>>=◌
  checked (ok a) p = p a refl
  checked (err e) p = Keeps-ended _

  Kept-read :
      {A B : Type 0} (x : Result A) (f : A → Act S V B)
      → ((a : A) → x ≡ ok a → Keeps k (f a))
      → Kept k (continue (stored x) f)
  unfolding Kept
  Kept-read (ok a) f p = (p a refl).kept
  Kept-read (err e) f p = tt

  pub settled :
      {A B : Type 0} (r : Result A) {f : A → Act S V B}
      → ((a : A) → r ≡ ok a → Keeps k (f a))
      → Keeps k (settle r >>= f)
  unfolding settle ◌>>=◌
  settled (ok a) p = p a refl
  settled (err e) p = Keeps-ended _

  -- What was read was read from a store in order.
  pub fetched :
      {A B : Type 0} (read : S → Result A) {f : A → Act S V B}
      → ((w : World S V) (a : A) → Sound k w → read w.store ≡ ok a → Keeps k (f a))
      → Keeps k (fetch read >>= f)
  unfolding fetch ◌>>=◌ Kept
  fetched read {f = f} p = record { kept = λ w h. (h, Kept-read (read w.store) f λ a e. p w a h e) }

  pub accepted :
      {B : Type 0} (r : Result (Unit {0})) {c : Act S V B}
      → (r ≡ ok tt → Keeps k c)
      → Keeps k (check r >> c)
  unfolding ◌>>◌
  accepted r p = checked r λ _ e. p e

  -- After the test of a pointer its value is known.
  pub provided :
      {A B : Type 0} (o : Option A) (status : ℕ) (message : String) {f : A → Act S V B}
      → ((a : A) → o ≡ some a → Keeps k (f a))
      → Keeps k (present o status message >>= f)
  unfolding present ◌>>=◌
  provided none status message p = Keeps-ended _
  provided (some a) status message p = p a refl

module _ {S V : Type 0} {st : Store S} (k : Contract st) where
  run-Kept :
      {A : Type 0} (m : Act S V A) (w : World S V) → Kept k m → Sound k w → Sound k (Act.run m w).1
  unfolding Kept Act.run
  run-Kept (ended o) w p h = h
  run-Kept (step u n) w p h = run-Kept (n w) (u w) (p w h).1 (p w h).0

  -- Run alone, too.
  pub Keeps-Sound :
      (m : Act S V Response) (w : World S V) → Keeps k m → Sound k w → Sound k (m ▷ w).1
  unfolding ◌▷◌
  Keeps-Sound m w p h = run-Kept m w p.kept h
