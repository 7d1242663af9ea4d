-- ===== src/Pipeline/Models/Laws.antt =====
-- The id of a step tells orders and steps apart.
use Prim.Native.Char.{Char}
use dinner_rush.Prelude.{String, Bool, true, false, ◌≡◌, refl, sym, ap, ◌∙◌, ◌||◌, ◌==◌, arith}
use dinner_rush.Prelude.Text.{◌+s◌}
use text.Mathlib.TextLemmas.{nil-append, cons-append, append_cancel_left}
use dinner_rush.Pipeline.States.{
  State, value, of_value, of_value-value, placed, confirmed, preparing, ready, out_for_delivery,
  delivered, cancelled, failed,
}
use dinner_rush.Pipeline.Models.{op_id_for}
use Prim.Native.Char.{code}

-- Whether a character stands in a text.
stands_in : Char → String → Bool
stands_in c String.[] = false
stands_in c (String.◌∷◌ d s) = (code c == code d) || stands_in c s

stands_in-append :
    (c : Char) (s t : String) → stands_in c (s +s t) ≡ (stands_in c s || stands_in c t)
unfolding stands_in
stands_in-append c String.[] t = ap (stands_in c) (nil-append t)
stands_in-append c (String.◌∷◌ d s) t =
    ap (stands_in c) (cons-append d s t)
    ∙ ap (λ b. (code c == code d) || b) (stands_in-append c s t)
    ∙ ground arith

stands_in-separator : (c : Char) (s t : String) → stands_in c (s +s String.◌∷◌ c t) ≡ true
unfolding stands_in
stands_in-separator c s t = stands_in-append c s (String.◌∷◌ c t) ∙ ground arith

tail_of : String → String
tail_of String.[] = String.[]
tail_of (String.◌∷◌ c s) = s

head_of : Char → String → Char
head_of d String.[] = d
head_of d (String.◌∷◌ c s) = c

separated :
    (c : Char) (s u v : String) → stands_in c u ≡ false → u ≡ s +s String.◌∷◌ c v → false ≡ true
separated c s u v h e = sym h ∙ ap (stands_in c) e ∙ stands_in-separator c s v

-- A text is cut in one way at the last place of a separator.
cut_at_last :
    (c : Char) (s t u v : String)
    → stands_in c u ≡ false
    → stands_in c v ≡ false
    → s +s String.◌∷◌ c u ≡ t +s String.◌∷◌ c v
    → (s ≡ t) × (u ≡ v)
unfolding tail_of head_of
cut_at_last c String.[] String.[] u v hu hv e =
    (refl, ap tail_of (sym (nil-append (String.◌∷◌ c u)) ∙ e ∙ nil-append (String.◌∷◌ c v)))
cut_at_last c String.[] (String.◌∷◌ d t) u v hu hv e =
    let wrong =
      separated c t u v hu
        (ap tail_of (sym (nil-append (String.◌∷◌ c u)) ∙ e ∙ cons-append d t (String.◌∷◌ c v))) in
    absurd (cc)
cut_at_last c (String.◌∷◌ d s) String.[] u v hu hv e =
    let wrong =
      separated c s v u hv (
        ap tail_of
          (sym (nil-append (String.◌∷◌ c v)) ∙ sym e ∙ cons-append d s (String.◌∷◌ c u))) in
    absurd (cc)
cut_at_last c (String.◌∷◌ d s) (String.◌∷◌ k t) u v hu hv e =
    let both = sym (cons-append d s (String.◌∷◌ c u)) ∙ e ∙ cons-append k t (String.◌∷◌ c v) in
    let (same, rest) = cut_at_last c s t u v hu hv (ap tail_of both) in
    (ap (λ x. String.◌∷◌ x s) (ap (head_of c) both) ∙ ap (String.◌∷◌ k) same, rest)

value-separators :
    (s : State) → (stands_in ":" (value s) ≡ false) × (stands_in "-" (value s) ≡ false)
unfolding stands_in value
value-separators placed = (refl, refl)
value-separators confirmed = (refl, refl)
value-separators preparing = (refl, refl)
value-separators ready = (refl, refl)
value-separators out_for_delivery = (refl, refl)
value-separators delivered = (refl, refl)
value-separators cancelled = (refl, refl)
value-separators failed = (refl, refl)

no_colon : (f t : State) → stands_in ":" (value f +s "->" +s value t) ≡ false
unfolding stands_in
no_colon f t = ground (
  arith,
  stands_in-append ":" (value f) ("->" +s value t),
  stands_in-append ":" "->" (value t),
  value-separators f,
  value-separators t,
)

no_dash : (t : State) → stands_in "-" (">" +s value t) ≡ false
unfolding stands_in
no_dash t = ground (arith, stands_in-append "-" ">" (value t), value-separators t)

value-injective : (f t : State) → value f ≡ value t → f ≡ t
value-injective f t e = ground (arith, of_value-value f, of_value-value t, ap of_value e)

one_char : (c : Char) (x : String) → String.◌∷◌ c String.[] +s x ≡ String.◌∷◌ c x
one_char c x = cons-append c String.[] x ∙ ap (String.◌∷◌ c) (nil-append x)

arrow : (x : String) → "->" +s x ≡ String.◌∷◌ "-" (">" +s x)
arrow x = cons-append "-" ">" x

-- The id of a step is that of one order and one transition.
pub op_id_for-injective :
    (o p : String) (f g t u : State)
    → op_id_for o f t ≡ op_id_for p g u
    → (o ≡ p) × (f ≡ g) × (t ≡ u)
unfolding op_id_for
op_id_for-injective o p f g t u e =
    let (order, step) =
      cut_at_last ":" o p (value f +s "->" +s value t) (value g +s "->" +s value u) (no_colon f t)
        (no_colon g u)
        (sym (ap (λ x. o +s x) (one_char ":" _)) ∙ e ∙ ap (λ x. p +s x) (one_char ":" _)) in
    let (from, to) =
      cut_at_last "-" (value f) (value g) (">" +s value t) (">" +s value u) (no_dash t) (no_dash u)
        (sym (ap (λ x. value f +s x) (arrow _)) ∙ step ∙ ap (λ x. value g +s x) (arrow _)) in
    (order, value-injective f g from, value-injective t u (tail to))
  where
    tail : ">" +s value t ≡ ">" +s value u → value t ≡ value u
    tail h = append_cancel_left ">" (value t) (value u) h
