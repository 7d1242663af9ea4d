-- ===== src/Orders/Token.antt =====
-- The cart token of customer-web/src/lib/dr.ts: `encodeCart` and `decodeCart`. The text form of a JSON
-- value (`JSON.stringify`, then base64url of its UTF-8 bytes, and back) is the runtime's, and is taken
-- as a parameter.
pub mod Postfix
use dinner_rush.Prelude.{
  ℕ, String, Bool, true, false, Option, none, some, List, [], ◌∷◌, ◌≡◌, refl, str_eq, if◌then◌else◌,
  ◌==◌, ◌&&◌, ap,
}

mutual
  pub data Props : Type 0 where
    end : Props
    prop : String → Json → Props → Props

  pub data Json : Type 0 where
    obj : Props → Json
    arr : Elems → Json
    str : String → Json
    num : ℕ → Json
    bool : Bool → Json
    null : Json

  pub data Elems : Type 0 where
    cons : Json → Elems → Elems
    nil : Elems

-- `decode` is `none` where `JSON.parse` throws. What the program relies on is that a value comes back
-- from its own text.
pub record Codec : Type 0 where
  pub encode : Json → String
  pub decode : String → Option Json
  pub decode-encode : (j : Json) → decode (encode j) ≡ some j

pub record TokenOrder : Type 0 where
  pub id : String
  pub r : String

pub record CartToken : Type 0 where
  pub hc : ℕ
  pub o : List TokenOrder

order_json : TokenOrder → Json
order_json t = obj (prop "id" (str t.id) (prop "r" (str t.r) end))

orders_json : List TokenOrder → Elems
unfolding order_json
orders_json [] = nil
orders_json (t ∷ ts) = cons (order_json t) (orders_json ts)

-- `{ v: 1, hc, o }`
pub token_json : CartToken → Json
unfolding orders_json
token_json t = obj (prop "v" (num 1) (prop "hc" (num t.hc) (prop "o" (arr (orders_json t.o)) end)))

-- A property of a value, `undefined` being `none`; a repeated key has the value given last.
member_of : String → Option Json → Props → Option Json
member_of k found end = found
member_of k found (prop j v ps) = member_of k (if str_eq j k then some v else found) ps

member : String → Json → Option Json
unfolding member_of
member k (obj ps) = member_of k none ps
member k _ = none

is_one : Option Json → Bool
is_one (some (num n)) = n == 1
is_one _ = false

-- The cast `parsed as CartToken`, which checks nothing: a value that lacks a field, or has one of
-- another type, is `none` here and is no token that this program wrote.
cast_order : Option Json → Option Json → Option TokenOrder
cast_order (some (str id)) (some (str r)) = some (record { id = id; r = r })
cast_order _ _ = none

join_orders : Option TokenOrder → Option (List TokenOrder) → Option (List TokenOrder)
join_orders (some t) (some ts) = some (t ∷ ts)
join_orders _ _ = none

cast_orders : Elems → Option (List TokenOrder)
unfolding cast_order member join_orders
cast_orders nil = some []
cast_orders (cons j js) = join_orders (cast_order (member "id" j) (member "r" j)) (cast_orders js)

join_token : Option Json → Option Json → Option CartToken
unfolding cast_orders
join_token (some (num hc)) (some (arr js)) = elim (cast_orders js) [
  | none ↦ none
  | some o ↦ some (record { hc = hc; o = o })
]
join_token _ _ = none

pub as_token : Json → Option CartToken
unfolding join_token member
as_token j = join_token (member "hc" j) (member "o" j)

is_array : Option Json → Bool
is_array (some (arr js)) = true
is_array _ = false

-- A value that the token's text may hold: truthy, version 1, with an array `o`. The properties of a
-- value that is not an object are `undefined`, so such a value, also a falsy one, is none.
pub is_cart : Json → Bool
unfolding is_one is_array member
is_cart j = is_one (member "v" j) && is_array (member "o" j)

module _ (codec : Codec) where
  unfoldable pub encode_cart : CartToken → String
  unfolding token_json
  encode_cart token = codec.encode (token_json token)

  -- The value that is returned `as CartToken`.
  pub decode_cart : String → Option Json
  unfolding is_cart
  decode_cart token = elim (codec.decode token) [
    | none ↦ none
    | some parsed ↦ if is_cart parsed then some parsed else none
  ]

  cast_orders-json : (ts : List TokenOrder) → cast_orders (orders_json ts) ≡ some ts
  unfolding cast_orders orders_json
  cast_orders-json [] = refl
  cast_orders-json (t ∷ ts) = rw (cast_orders-json ts)

  -- Decoding the token of a cart gives back the headcount and the orders.
  pub decode-encode_cart :
      (token : CartToken)
      → (j : Json) × (decode_cart (encode_cart token) ≡ some j) × (as_token j ≡ some token)
  unfolding decode_cart encode_cart as_token token_json
  decode-encode_cart token = (
    token_json token,
    rw (codec.decode-encode (token_json token), decode_cart) refl,
    rw (cast_orders-json token.o, join_token) refl,
  )

  -- Different carts have different tokens.
  pub encode_cart_injective : (s t : CartToken) → encode_cart s ≡ encode_cart t → s ≡ t
  encode_cart_injective s t e =
      let (j, dj, cj) = decode-encode_cart s in
      let (k, dk, ck) = decode-encode_cart t in
      let same : decode_cart (encode_cart s) ≡ decode_cart (encode_cart t) = ap decode_cart e in cc
