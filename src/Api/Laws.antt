-- ===== src/Api/Laws.antt =====
-- What the answer of the order route says.
use dinner_rush.Prelude.{String, Bool, true, false, List, ◌≡◌, ◌↔◌, refl, ◌∙◌, Bool-cases, inl, inr}
use dinner_rush.OrderApi.{PlaceOrderInput, PlaceOrderResult, ok, error}
use dinner_rush.Orders.Token.{Codec}
use dinner_rush.Orders.Ingestion.{Table}
use dinner_rush.Orders.Place.{Post, place_cart}
use dinner_rush.Orders.Place.Posts.{Outcome-cases}
use dinner_rush.Api.{is_order, fields, Response, respond, post_order, read_response}

-- What the route's response, and the page's reading of it, have to be for an order.
pub record IsAnswered (codec : Codec) (collate : String → String → Bool) (is_email : String → Bool)
    (t : Table) (key : String) (input : PlaceOrderInput) (posts : List Post) (u : Table)
    (r : Response) : Type 0 where
  pub result :
      (x : PlaceOrderResult)
      → (read_response r ≡ ok x) ↔ (
          (is_order is_email input ≡ true)
          × ((place_cart codec collate t key input posts).1 ≡ ok x))
  pub refusal :
      is_order is_email input ≡ false
      → (u ≡ t) × (r.status ≡ 422) × (read_response r ≡ error "invalid order")
  pub failure :
      (m : String)
      → is_order is_email input ≡ true
      → (place_cart codec collate t key input posts).1 ≡ error m
      → (r.status ≡ 502) × (read_response r ≡ error "could not place order")

-- A typed body, placed and read back by the page: the page has a result exactly when the route accepts
-- the order and `placeCart` succeeds, and it is that result; a refused order leaves the table alone and
-- is "invalid order"; a failure of `placeCart` is "could not place order".
pub post_order-IsAnswered :
    (codec : Codec) (collate : String → String → Bool) (is_email : String → Bool) (t : Table)
    (key : String) (input : PlaceOrderInput) (posts : List Post)
    → let (u, r) = post_order codec collate is_email t key (fields input) posts in
      IsAnswered codec collate is_email t key input posts u r
unfolding post_order read_response respond
post_order-IsAnswered codec collate is_email t key input posts =
    elim (Bool-cases (is_order is_email input)) [
      | inr bad ↦
          rw (bad, post_order)
            (record {
              result = λ x. (λ e. absurd (cc), λ p. absurd (cc (p.0, bad)));
              refusal = λ h. (refl, refl, refl);
              failure = λ m h e. absurd (cc (h, bad));
            })
      | inl good ↦ elim (Outcome-cases (place_cart codec collate t key input posts).1) [
        | inl (r, won) ↦
            rw (good, post_order)
              (record {
                result = λ x. (λ e. (good, won ∙ (rw won at e)), λ p. rw won (cc (p.1, won)));
                refusal = λ h. absurd (cc (h, good));
                failure = λ m h e. absurd (cc (e, won));
              })
        | inr (n, lost) ↦
            rw (good, post_order)
              (record {
                result = λ x. (λ e. absurd (cc (rw lost at e)), λ p. absurd (cc (p.1, lost)));
                refusal = λ h. absurd (cc (h, good));
                failure = λ m h e. rw lost (refl, refl);
              })
      ]
    ]
