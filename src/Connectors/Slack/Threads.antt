-- ===== src/Connectors/Slack/Threads.antt =====
-- Which Slack events belong to one conversation.
use Prim.Native.Char.{code}
use Prim.Native.String.{[], ◌∷◌}
use text.Mathlib.TextLemmas.{
  nil-append, cons-append, append_cancel_left, head-eq_of_cons-eq, tail-eq_of_cons-eq,
}
use sclawion.Prelude.{
  ◌≡◌, ◌≢◌, ◌↔◌, ◌⊎◌, inl, inr, refl, ap, ap₂, sym, subst, ◌∙◌, String, false, nat_eq, eq_iff,
  text-cases, arith,
}
use sclawion.Text.{◌⧺◌}
use sclawion.Bytes.{Bytes}
use sclawion.Connectors.Slack.{RawEvent, Message, thread_of, envelope_of}

-- No character of a text is a colon.
abbrev pub IsPlain : String → Type 0
IsPlain [] = Unit
IsPlain (c ∷ s) = (nat_eq (code c) b':' ≡ false) × IsPlain s

colon-append : (x : String) → "" ⧺ ":" ⧺ x ≡ ":" ∷ x
colon-append x = nil-append (":" ⧺ x) ∙ cons-append ":" "" x ∙ ap (λ s. ":" ∷ s) (nil-append x)

at_colon :
    (s t x y : String) → IsPlain s → IsPlain t → s ⧺ ":" ⧺ x ≡ t ⧺ ":" ⧺ y → (s ≡ t) × (x ≡ y)
at_colon [] [] x y p q h = (refl, tail-eq_of_cons-eq (sym (colon-append x) ∙ h ∙ colon-append y))
at_colon [] (d ∷ t) x y p (q, _) h =
    let same = head-eq_of_cons-eq (sym (colon-append x) ∙ h ∙ cons-append d t (":" ⧺ y)) in
    absurd (ground (arith, q, ap code same))
at_colon (c ∷ s) [] x y (p, _) q h =
    let same = head-eq_of_cons-eq (sym (cons-append c s (":" ⧺ x)) ∙ h ∙ colon-append y) in
    absurd (ground (arith, p, ap code same))
at_colon (c ∷ s) (d ∷ t) x y (p, ps) (q, qs) h =
    let whole = sym (cons-append c s (":" ⧺ x)) ∙ h ∙ cons-append d t (":" ⧺ y) in
    let (same, rest) = at_colon s t x y ps qs (tail-eq_of_cons-eq whole) in
    (ap₂ (λ e u. e ∷ u) (head-eq_of_cons-eq whole) same, rest)

-- The thread that a message stands in: the one that it replies to, or else the one that it opens, which
-- has the message's own timestamp.
abbrev pub InThread : Message → String → Type 0
InThread m t = ((m.thread_ts ≢ "") × (m.thread_ts ≡ t)) ⊎ ((m.thread_ts ≡ "") × (m.ts ≡ t))

thread_of-InThread : (m : Message) → InThread m (thread_of m)
unfolding thread_of
thread_of-InThread m = elim (text-cases m.thread_ts "") [
  | inl e ↦ inr (e, ground (arith, eq_iff m.thread_ts "", e))
  | inr n ↦ inl (λ e. absurd (ground (arith, eq_iff m.thread_ts "", n, e)), ground (arith, n))
]

InThread-unique : (m : Message) (t : String) → InThread m t → thread_of m ≡ t
unfolding thread_of
InThread-unique m t (inl (n, e)) = ground (arith, eq_iff m.thread_ts "", n, e)
InThread-unique m t (inr (n, e)) = ground (arith, eq_iff m.thread_ts "", n, e)

-- Two Slack events whose channels have no colon get the same conversation exactly if their channels are
-- the same and they stand in one thread, the one that a message replies to or, where it is no reply, the
-- one that it opens under its own timestamp; whatever the bodies that they came in.
pub conversation_iff :
    (b b' : Bytes) (r r' : RawEvent)
    → IsPlain r.event.channel
    → IsPlain r'.event.channel
    → ((envelope_of b r).conversation_id ≡ (envelope_of b' r').conversation_id) ↔ (
        (r.event.channel ≡ r'.event.channel)
        × ((t : String) × InThread r.event t × InThread r'.event t))
unfolding envelope_of
conversation_iff b b' r r' p q = (
  λ h.
      let (same, one) =
        at_colon r.event.channel r'.event.channel (thread_of r.event) (thread_of r'.event) p q
          (append_cancel_left "slack:" _ _ h) in
      (
        same,
        (
          thread_of r.event,
          thread_of-InThread r.event,
          subst (InThread r'.event) (sym one) (thread_of-InThread r'.event),
        ),
      ),
  λ (same, (t, i, i')).
      let one = InThread-unique r.event t i ∙ sym (InThread-unique r'.event t i') in
      rw (same, one) refl,
)
