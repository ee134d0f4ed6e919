-- ===== src/Hooks/Pixels.antt =====
-- Lengths and positions on the screen: whole pixels with a sign.
use mattermost_plugin_openta.Base.{ℕ, suc, ◌+◌, ◌-◌, ◌≤◌, ◌≡◌, Bool, leb, if◌then◌else◌, arith}

-- `negsuc n` is -(n + 1).
pub data ℤ : Type 0 where
  pos negsuc : ℕ → ℤ

abbrev pub above : ℤ → ℕ
above (pos n) = n
above (negsuc n) = 0

abbrev pub below : ℤ → ℕ
below (pos n) = 0
below (negsuc n) = suc n

abbrev minus : ℕ → ℕ → ℤ
minus a b = if leb b a then pos (a - b) else negsuc (b - a - 1)

infixl 65 ◌+ℤ◌ ◌-ℤ◌
infix 50 ◌≤ℤ◌
unfoldable pub ◌+ℤ◌ : ℤ → ℤ → ℤ
x +ℤ y = minus (above x + above y) (below x + below y)

unfoldable pub ◌-ℤ◌ : ℤ → ℤ → ℤ
x -ℤ y = minus (above x + below y) (below x + above y)

abbrev pub ◌≤ℤ◌ : ℤ → ℤ → Type 0
x ≤ℤ y = above x + below y ≤ above y + below x

abbrev pub leb_ℤ : ℤ → ℤ → Bool
leb_ℤ x y = leb (above x + below y) (above y + below x)

-- `Math.min` and `Math.max`
abbrev pub min_ℤ : ℤ → ℤ → ℤ
min_ℤ x y = if leb_ℤ x y then x else y

abbrev pub max_ℤ : ℤ → ℤ → ℤ
max_ℤ x y = if leb_ℤ x y then y else x

-- `Math.max(low, Math.min(x, high))`
unfoldable pub clamp : (low high : ℤ) → ℤ → ℤ
clamp low high x = max_ℤ low (min_ℤ x high)

pub clamp-low : (low high x : ℤ) → low ≤ℤ clamp low high x
unfolding clamp
clamp-low low high x = ground arith

pub clamp-high : (low high x : ℤ) → low ≤ℤ high → clamp low high x ≤ℤ high
unfolding clamp
clamp-high low high x h = ground arith

pub clamp-clamp : (low high x : ℤ) → clamp low high (clamp low high x) ≡ clamp low high x
unfolding clamp
clamp-clamp low high x = ground arith

-- A value in the range stays.
pub clamp-within : (low high x : ℤ) → low ≤ℤ x → x ≤ℤ high → clamp low high x ≡ x
unfolding clamp
clamp-within low high x l h = ground arith

-- One outside it goes to the nearer end, and an empty range has its lower one only.
pub clamp-below : (low high x : ℤ) → x ≤ℤ low → clamp low high x ≡ low
unfolding clamp
clamp-below low high x h = ground arith

pub clamp-above : (low high x : ℤ) → low ≤ℤ high → high ≤ℤ x → clamp low high x ≡ high
unfolding clamp
clamp-above low high x l h = ground arith

pub clamp-empty : (low high x : ℤ) → high ≤ℤ low → clamp low high x ≡ low
unfolding clamp
clamp-empty low high x h = ground arith
