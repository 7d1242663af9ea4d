-- ===== src/Pipeline/Store/Commands.antt =====
-- What the outbox holds: the commands that drive orders on, and the events of transitions.
use mathlib.Core.List.{append-nil}
use dinner_rush.Prelude.{
  ℕ, String, Bool, true, false, Option, none, some, List, [], ◌∷◌, ◌++◌, map, ◌≡◌, refl, ap, ◌∙◌,
  str_eq, eq_refl, any, filter_map, arith, ◌&&◌, ◌||◌,
}
use dinner_rush.Pipeline.States.{State, value}
use dinner_rush.Pipeline.Models.{Envelope, placed_order, advance_from, moved}
use dinner_rush.Pipeline.Store.{Transition, Outgoing, events, work, advance_command, make_event}

abbrev pub envelopes : List Outgoing → List Envelope
envelopes outbox = map (λ (o : Outgoing). o.envelope) outbox

abbrev pub is_command : String → State → Envelope → Bool
is_command id s e = elim e.payload [
  | placed_order d ↦ false
  | advance_from v ↦ str_eq e.order_id id && str_eq v (value s)
  | moved f t c n ↦ false
]

-- Whether the outbox holds, or held, the command that drives an order on from a state.
pub commanded : String → State → List Outgoing → Bool
commanded id s outbox = any (is_command id s) (envelopes outbox)

pub commanded-push :
    (id : String) (s : State) (outbox : List Outgoing) (o : Outgoing)
    → commanded id s (outbox ++ o ∷ []) ≡ (commanded id s outbox || is_command id s o.envelope)
unfolding commanded
commanded-push id s [] o = ground arith
commanded-push id s (x ∷ outbox) o = ground (arith, commanded-push id s outbox o)

pub commanded-next :
    (id : String) (s : State) (outbox : List Outgoing)
    → commanded id s (
        outbox
        ++ record { exchange = work; envelope = advance_command id s; published = false } ∷ [])
      ≡ true
commanded-next id s outbox =
    commanded-push id s outbox _ ∙ ground (arith, eq_refl id, eq_refl (value s))

abbrev pub Told : Type 0
Told = String × State × State × String × ℕ

abbrev pub event_of : Transition → Told
event_of t = (t.order_id, t.from_state, t.to_state, t.cause, t.attempt)

abbrev as_event : Envelope → Option Told
as_event e = elim e.payload [
  | placed_order d ↦ none
  | advance_from v ↦ none
  | moved f t c n ↦ some (e.order_id, f, t, c, n)
]

-- The transitions that the outbox tells of, in its order.
pub told : List Outgoing → List Told
told outbox = filter_map as_event (envelopes outbox)

told-push :
    (outbox : List Outgoing) (o : Outgoing) → told (outbox ++ o ∷ []) ≡ told outbox ++ told (o ∷ [])
unfolding told
told-push [] o = refl
told-push (x ∷ outbox) o = ground (arith, told-push outbox o)

pub told_event :
    (outbox : List Outgoing) (id : String) (cur tgt : State) (cause : String) (n : ℕ)
    → told (
        outbox
        ++ record {
          exchange = events;
          envelope = make_event id (moved cur tgt cause n);
          published = false;
        }
          ∷ [])
      ≡ told outbox ++ (id, cur, tgt, cause, n) ∷ []
unfolding told
told_event outbox id cur tgt cause n = told-push outbox _

pub told_command :
    (outbox : List Outgoing) (id : String) (s : State)
    → told (
        outbox
        ++ record { exchange = work; envelope = advance_command id s; published = false } ∷ [])
      ≡ told outbox
unfolding told
told_command outbox id s = told-push outbox _ ∙ append-nil _

pub told-nil : told [] ≡ []
unfolding told
told-nil = refl

-- Only the envelopes matter.
pub commanded-envelopes :
    (id : String) (s : State) (xs ys : List Outgoing)
    → envelopes xs ≡ envelopes ys
    → commanded id s xs ≡ commanded id s ys
unfolding commanded
commanded-envelopes id s xs ys e = ap (any (is_command id s)) e

pub told-envelopes : (xs ys : List Outgoing) → envelopes xs ≡ envelopes ys → told xs ≡ told ys
unfolding told
told-envelopes xs ys e = ap (filter_map as_event) e
