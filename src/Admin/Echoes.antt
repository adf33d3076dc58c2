-- ===== src/Admin/Echoes.antt =====
-- Programs whose answer 200 is what a read answers afterwards: rules by which a body has this property.
use sclawion.Prelude.{ℕ, ◌≤◌, ◌≡◌, refl, ap, ◌∙◌, some, arith}
use sclawion.Config.Errors.{Result, ok, err}
use sclawion.Config.Types.{AuditEntry}
use sclawion.Config.Store.{Store, Write}
use sclawion.Config.Contract.{Contract}
use sclawion.Config.MemStore.View
use sclawion.Config.MemStore.View.{View, Op, spec}
use sclawion.Config.World.{Host, World, now, tick}
use sclawion.Config.Audit.{Recorder, record_entry}
use sclawion.Event.{Time}
use sclawion.Admin.Http.{Body, Response, respond}
use sclawion.Admin.Recording.{recording}
use sclawion.Admin.Recorded.{store-record_entry}
use sclawion.Admin.Silence.{http_status_for-le}
use sclawion.Admin.Trail.{completed}
use sclawion.Admin.Act.{
  Act, stored, continue, ◌>>=◌, ◌>>◌, answer, check, fetch, save, peek, time_now, effect, visit,
  run, ◌▷◌,
}

-- Where the program, run from `w`, answers 200, the read `get` then answers the same.
abbrev pub Echoes : {S V : Type 0} → Act S V Response → Act S V Response → World S V → Type 0
Echoes get m w = (m ▷ w).0.status ≡ 200 → (get ▷ (m ▷ w).1).0 ≡ respond 200 (m ▷ w).0.body

module _ {S V : Type 0} (get : Act S V Response) where
  pub Echoes-answer :
      (w : World S V) (status : ℕ) (body : Body) → 400 ≤ status → Echoes get (answer status body) w
  unfolding answer ◌▷◌ run
  Echoes-answer w status body h e = absurd (omega arith)

  pub Echoes-check :
      {A : Type 0} (r : Result A) (f : A → Act S V Response) (w : World S V)
      → ((a : A) → r ≡ ok a → Echoes get (f a) w)
      → Echoes get (check r >>= f) w
  unfolding check ◌>>=◌ ◌▷◌ run
  Echoes-check (ok a) f w p = p a refl
  Echoes-check (err e) f w p = λ h. absurd (omega arith)

  Echoes-stored :
      {A : Type 0} (x : Result A) (f : A → Act S V Response) (w : World S V)
      → ((a : A) → x ≡ ok a → Echoes get (f a) w)
      → Echoes get (continue (stored x) f) w
  unfolding ◌▷◌ run
  Echoes-stored (ok a) f w p = p a refl
  Echoes-stored (err e) f w p = λ h. absurd (omega (arith, http_status_for-le e))

  pub Echoes-fetch :
      {A : Type 0} (read : S → Result A) (f : A → Act S V Response) (w : World S V)
      → ((a : A) → read w.store ≡ ok a → Echoes get (f a) w)
      → Echoes get (fetch read >>= f) w
  unfolding fetch ◌>>=◌ ◌▷◌ run
  Echoes-fetch read f w p = Echoes-stored (read w.store) f w p

  pub Echoes-peek :
      {A : Type 0} (read : S → A) (f : A → Act S V Response) (w : World S V)
      → Echoes get (f (read w.store)) w
      → Echoes get (peek read >>= f) w
  unfolding peek ◌>>=◌ ◌▷◌ run
  Echoes-peek read f w p = p

  pub Echoes-time_now :
      (h : Host) (f : Time → Act S V Response) (w : World S V)
      → Echoes get (f (now h w)) (tick h w)
      → Echoes get (time_now h >>= f) w
  unfolding time_now ◌>>=◌ ◌▷◌ run
  Echoes-time_now h f w p = p

  Echoes-done :
      (x : Result (Unit {0})) (m : Act S V Response) (w : World S V)
      → x ≡ ok tt
      → Echoes get m w
      → Echoes get (continue (stored x) (λ _. m)) w
  Echoes-done (ok _) m w e p = p
  Echoes-done (err x) m w e p = absurd cc

  Echoes-save :
      (write : Write S) (m : Act S V Response) (w : World S V)
      → (write w.store).0 ≡ ok tt
      → Echoes get m (record w { store = (write w.store).1 })
      → Echoes get (save write >> m) w
  unfolding save ◌>>=◌ ◌>>◌ ◌▷◌ run
  Echoes-save write m w e p =
      Echoes-done (write w.store).0 m (record w { store = (write w.store).1 }) e p

-- A read that answers from the documents alone.
module _ {S V : Type 0} {st : Store S} (k : Contract st) (get : Act S V Response)
    (shown : View → Response) (reads : (w : World S V) → (get ▷ w).0 ≡ shown (k.look w.store))
    (h : Host) (rec : Recorder S) (same : rec.store ≡ some st) where
  look-record_entry :
      (e : AuditEntry) (w : World S V)
      → k.look (record_entry h rec e w).store
        ≡ (spec (View.put_audit (completed h rec e w)) (k.look w.store)).1
  look-record_entry e w =
      ap k.look (store-record_entry h rec e w same)
      ∙ (k.writes (View.put_audit (completed h rec e w)) w.store).1

  Echoes-recorded :
      (e : AuditEntry) (body : Body) (w : World S V)
      → ((c : AuditEntry) → shown (spec (View.put_audit c) (k.look w.store)).1 ≡ respond 200 body)
      → Echoes get (recording h rec e >> answer 200 body) w
  unfolding recording effect visit answer ◌>>=◌ ◌>>◌ ◌▷◌ run record_entry
  Echoes-recorded e body w shows = λ _.
      reads (record_entry h rec e w)
      ∙ ap shown (look-record_entry e w)
      ∙ shows (completed h rec e w)

  -- A write, its record and the answer, where the read shows what is written.
  pub Echoes-write :
      (op : Op) (e : AuditEntry) (body : Body) (w : World S V)
      → (spec op (k.look w.store)).0 ≡ ok tt
      → ((c : AuditEntry)
          → shown (spec (View.put_audit c) (spec op (k.look w.store)).1).1 ≡ respond 200 body)
      → Echoes get (save (View.run st op) >> (recording h rec e >> answer 200 body)) w
  Echoes-write op e body w done shows =
      let (result, changed) = k.writes op w.store in
      Echoes-save get (View.run st op) (recording h rec e >> answer 200 body) w (result ∙ done) (
        Echoes-recorded e body (record w { store = (View.run st op w.store).1 })
          λ c. ap (λ v. shown (spec (View.put_audit c) v).1) changed ∙ shows c)
