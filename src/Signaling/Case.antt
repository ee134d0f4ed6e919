-- ===== src/Signaling/Case.antt =====
-- The two conversions of action names: `camelToSnake` of webapp/src/conference/signaling/socket.ts
-- and `snakeToCamel` of event_listener.ts, and that one undoes the other.
use Prim.Native.Char.{Char, char, code, IsScalar}
use Prim.Native.Nat.{compare, Ordering}
use mathlib.Core.Path.{ap₂}
use text.Mathlib.TextEquality.{Char-path}
use mattermost_plugin_openta.Base.{
  ℕ, ◌+◌, ◌-◌, ◌%◌, ◌<◌, String, ◌≡◌, refl, ap, ◌∙◌, Bool, true, false, ◌&&◌, leb, nat_eq,
  if◌then◌else◌, arith, Bool-cases, inl, inr,
}

-- The characters below the surrogates, by number.
compare-lt : (n : ℕ) → n < 55296 → compare n 55296 ≡ Ordering.lt
compare-lt n h = ground arith

pub small-IsScalar : (n : ℕ) → n < 55296 → IsScalar n
small-IsScalar n h = rw (compare-lt n h) tt

abbrev pub is_underscore : Char → Bool
is_underscore c = nat_eq (code c) b'_'

abbrev pub is_lower : Char → Bool
is_lower c = leb b'a' (code c) && leb (code c) b'z'

abbrev pub is_upper : Char → Bool
is_upper c = leb b'A' (code c) && leb (code c) b'Z'

of_code : ℕ → Char
of_code n = char (n % 55296) (small-IsScalar (n % 55296) (omega arith))

unfoldable pub to_upper : Char → Char
unfolding of_code
to_upper c = if is_lower c then of_code (code c - 32) else c

unfoldable pub to_lower : Char → Char
unfolding of_code
to_lower c = if is_upper c then of_code (code c + 32) else c

abbrev underscore : Char
underscore = char 95 tt

-- `s.replace(/[A-Z]/g, (m) => `_${m.toLowerCase()}`)`
unfoldable pub camel_to_snake : String → String
camel_to_snake String.[] = String.[]
camel_to_snake (String.◌∷◌ c s) =
    let rest = camel_to_snake s in
    if is_upper c then String.◌∷◌ underscore (String.◌∷◌ (to_lower c) rest) else String.◌∷◌ c rest

-- `s.replace(/_([a-z])/g, (_, c) => c.toUpperCase())`
unfoldable pub snake_to_camel : String → String
snake_to_camel String.[] = String.[]
snake_to_camel (String.◌∷◌ c String.[]) = String.◌∷◌ c String.[]
snake_to_camel (String.◌∷◌ c (String.◌∷◌ d s)) =
    let skip = String.◌∷◌ (to_upper d) (snake_to_camel s) in
    let keep = String.◌∷◌ c (snake_to_camel (String.◌∷◌ d s)) in
    if is_underscore c && is_lower d then skip else keep

camel_join : camel_to_snake "joinSuccess" ≡ "join_success"
unfolding camel_to_snake to_lower
camel_join = refl

snake_join : snake_to_camel "join_success" ≡ "joinSuccess"
unfolding snake_to_camel to_upper
snake_join = refl

abbrev head_is_lower : String → Bool
head_is_lower String.[] = false
head_is_lower (String.◌∷◌ c s) = is_lower c

-- No underscore stands before a lower-case letter.
abbrev pub IsCamel : String → Type 0
IsCamel String.[] = Unit
IsCamel (String.◌∷◌ c s) = ((is_underscore c && head_is_lower s) ≡ false) × IsCamel s

upper_lower : (c : Char) → is_upper c ≡ true → to_upper (to_lower c) ≡ c
unfolding to_upper to_lower
upper_lower c h = Char-path _ _ (ground arith)

lower_is_lower : (c : Char) → is_upper c ≡ true → is_lower (to_lower c) ≡ true
unfolding to_lower
lower_is_lower c h = ground arith

head-camel_to_snake :
    (s : String) → head_is_lower (camel_to_snake s) ≡ true → head_is_lower s ≡ true
unfolding camel_to_snake
head-camel_to_snake String.[] h = h
head-camel_to_snake (String.◌∷◌ c s) h = ground arith

-- A character that starts no `_x` is kept.
snake_to_camel-keep :
    (c : Char) (s : String)
    → (is_underscore c && head_is_lower s) ≡ false
    → snake_to_camel (String.◌∷◌ c s) ≡ String.◌∷◌ c (snake_to_camel s)
unfolding snake_to_camel
snake_to_camel-keep c String.[] h = refl
snake_to_camel-keep c (String.◌∷◌ d s) h = rw h

keeps :
    (c : Char) (s : String)
    → (is_underscore c && head_is_lower s) ≡ false
    → (is_underscore c && head_is_lower (camel_to_snake s)) ≡ false
keeps c s h = ground (arith, head-camel_to_snake s)

snake_to_camel-skip :
    (d : Char) (s : String)
    → is_lower d ≡ true
    → snake_to_camel (String.◌∷◌ underscore (String.◌∷◌ d s))
      ≡ String.◌∷◌ (to_upper d) (snake_to_camel s)
unfolding snake_to_camel
snake_to_camel-skip d s h = rw h

nil_case : snake_to_camel String.[] ≡ String.[]
unfolding snake_to_camel
nil_case = refl

-- A name in which no underscore stands before a lower-case letter comes back from its form on the
-- wire.
pub snake_to_camel-camel_to_snake : (s : String) → IsCamel s → snake_to_camel (camel_to_snake s) ≡ s
unfolding camel_to_snake
snake_to_camel-camel_to_snake String.[] h = nil_case
snake_to_camel-camel_to_snake (String.◌∷◌ c s) h = elim (Bool-cases (is_upper c)) [
  | inl up ↦ rw up (
      snake_to_camel-skip (to_lower c) (camel_to_snake s) (lower_is_lower c up)
      ∙ ap₂ String.◌∷◌ (upper_lower c up) (snake_to_camel-camel_to_snake s h.1))
  | inr low ↦ rw low (
      snake_to_camel-keep c (camel_to_snake s) (keeps c s h.0)
      ∙ ap (String.◌∷◌ c) (snake_to_camel-camel_to_snake s h.1))
]
