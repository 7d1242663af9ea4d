-- ===== src/Orders/Token/Postfix.antt =====
-- A codec that satisfies what the cart token's code relies on: a postfix notation of JSON values, read
-- by a stack machine.
use Prim.Native.Char.{Char, code}
use dinner_rush.Prelude.{
  ℕ, zero, suc, String, Bool, true, false, Option, none, some, List, [], ◌∷◌, ◌≡◌, refl, ◌∙◌, ap,
  if◌then◌else◌, ◌==◌,
}
use dinner_rush.Orders.Token.{
  Json, null, bool, num, str, arr, obj, Elems, nil, cons, Props, end, prop, Codec,
}

data Item : Type 0 where
  value : Json → Item
  elems : Elems → Item
  props : Props → Item
  text : String → Item
  number : ℕ → Item

abbrev add_suc : List Item → List Item
add_suc (number n ∷ st) = number (suc n) ∷ st
add_suc st = st

abbrev add_char : Char → List Item → List Item
add_char c (text s ∷ st) = text (String.◌∷◌ c s) ∷ st
add_char c st = st

-- A number, a text, a list of elements or of properties becomes a value.
abbrev wrap : List Item → List Item
wrap (number n ∷ st) = value (num n) ∷ st
wrap (text s ∷ st) = value (str s) ∷ st
wrap (elems es ∷ st) = value (arr es) ∷ st
wrap (props ps ∷ st) = value (obj ps) ∷ st
wrap st = st

abbrev join : List Item → List Item
join (value j ∷ (elems es ∷ st)) = elems (cons j es) ∷ st
join (value j ∷ (text k ∷ (props ps ∷ st))) = props (prop k j ps) ∷ st
join st = st

abbrev apply : ℕ → List Item → List Item
apply c st =
    if c == b'0'
    then number 0 ∷ st
    else if c == b'+'
    then add_suc st
    else if c == b'n'
    then value null ∷ st
    else if c == b't'
    then value (bool true) ∷ st
    else if c == b'f'
    then value (bool false) ∷ st
    else if c == b's'
    then text "" ∷ st
    else if c == b'['
    then elems nil ∷ st
    else if c == b'{'
    then props end ∷ st
    else if c == b'.'
    then wrap st
    else join st

-- After a `c` the next character stands for itself.
read_items : String → Bool → List Item → List Item
read_items String.[] quoted st = st
read_items (String.◌∷◌ c s) true st = read_items s false (add_char c st)
read_items (String.◌∷◌ c s) false st =
    read_items s (code c == b'c') (if code c == b'c' then st else apply (code c) st)

abbrev top_value : List Item → Option Json
top_value (value j ∷ []) = some j
top_value _ = none

write_num : ℕ → String → String
write_num zero rest = String.◌∷◌ "0" rest
write_num (suc n) rest = write_num n (String.◌∷◌ "+" rest)

write_text : String → String → String
write_text String.[] rest = String.◌∷◌ "s" rest
write_text (String.◌∷◌ c s) rest = write_text s (String.◌∷◌ "c" (String.◌∷◌ c rest))

mutual
  unfolding write_num write_text

  write : Json → String → String
  write null rest = String.◌∷◌ "n" rest
  write (bool true) rest = String.◌∷◌ "t" rest
  write (bool false) rest = String.◌∷◌ "f" rest
  write (num n) rest = write_num n (String.◌∷◌ "." rest)
  write (str s) rest = write_text s (String.◌∷◌ "." rest)
  write (arr es) rest = write_elems es (String.◌∷◌ "." rest)
  write (obj ps) rest = write_props ps (String.◌∷◌ "." rest)

  write_elems : Elems → String → String
  write_elems nil rest = String.◌∷◌ "[" rest
  write_elems (cons j es) rest = write_elems es (write j (String.◌∷◌ "," rest))

  write_props : Props → String → String
  write_props end rest = String.◌∷◌ "{" rest
  write_props (prop k j ps) rest = write_props ps (write_text k (write j (String.◌∷◌ "," rest)))

read_num :
    (n : ℕ) (rest : String) (st : List Item)
    → read_items (write_num n rest) false st ≡ read_items rest false (number n ∷ st)
unfolding read_items write_num
read_num zero rest st = refl
read_num (suc n) rest st = read_num n (String.◌∷◌ "+" rest) st

read_text :
    (s rest : String) (st : List Item)
    → read_items (write_text s rest) false st ≡ read_items rest false (text s ∷ st)
unfolding read_items write_text
read_text String.[] rest st = refl
read_text (String.◌∷◌ c s) rest st = read_text s (String.◌∷◌ "c" (String.◌∷◌ c rest)) st

mutual
  unfolding read_items write write_elems write_props

  read_value :
      (j : Json) (rest : String) (st : List Item)
      → read_items (write j rest) false st ≡ read_items rest false (value j ∷ st)
  read_value null rest st = refl
  read_value (bool true) rest st = refl
  read_value (bool false) rest st = refl
  read_value (num n) rest st = read_num n (String.◌∷◌ "." rest) st
  read_value (str s) rest st = read_text s (String.◌∷◌ "." rest) st
  read_value (arr es) rest st = read_elems es (String.◌∷◌ "." rest) st
  read_value (obj ps) rest st = read_props ps (String.◌∷◌ "." rest) st

  read_elems :
      (es : Elems) (rest : String) (st : List Item)
      → read_items (write_elems es rest) false st ≡ read_items rest false (elems es ∷ st)
  read_elems nil rest st = refl
  read_elems (cons j es) rest st =
      read_elems es (write j (String.◌∷◌ "," rest)) st
      ∙ read_value j (String.◌∷◌ "," rest) (elems es ∷ st)

  read_props :
      (ps : Props) (rest : String) (st : List Item)
      → read_items (write_props ps rest) false st ≡ read_items rest false (props ps ∷ st)
  read_props end rest st = refl
  read_props (prop k j ps) rest st =
      read_props ps (write_text k (write j (String.◌∷◌ "," rest))) st
      ∙ read_text k (write j (String.◌∷◌ "," rest)) (props ps ∷ st)
      ∙ read_value j (String.◌∷◌ "," rest) (text k ∷ (props ps ∷ st))

read_write : (j : Json) → top_value (read_items (write j "") false []) ≡ some j
unfolding read_items
read_write j = ap top_value (read_value j "" [])

pub postfix : Codec
postfix = record {
  encode = λ j. write j "";
  decode = λ s. top_value (read_items s false []);
  decode-encode = read_write;
}
