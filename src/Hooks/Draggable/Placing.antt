-- ===== src/Hooks/Draggable/Placing.antt =====
-- Placing a window comes to rest, inside its viewport.
use mattermost_plugin_openta.Base.{◌≡◌, refl, Option, none, some, Bool-cases, inl, inr}
use mattermost_plugin_openta.Hooks.Pixels.{ℤ, ◌≤ℤ◌, clamp-low, clamp-high, clamp-clamp}
use mattermost_plugin_openta.Hooks.Draggable.{
  Offsets, Box, Draggable, margin, max_left, max_bottom, clamp_offsets, places, clamp_to_viewport,
}

clamp_offsets-clamp_offsets :
    (v : Box) (l b : ℤ) (box : Box)
    → clamp_offsets v (clamp_offsets v l b box).left (clamp_offsets v l b box).bottom box
      ≡ clamp_offsets v l b box
unfolding clamp_offsets
clamp_offsets-clamp_offsets v l b box =
    rw (clamp-clamp margin (max_left v box) l, clamp-clamp margin (max_bottom v box) b) refl

-- Measuring a second time in the same viewport and with the same box changes nothing, placed or not, so
-- that the renders that each change starts come to an end.
pub clamp-clamp_again :
    (v : Box) (o : Option Box) (d : Draggable)
    → clamp_to_viewport v o (clamp_to_viewport v o d) ≡ clamp_to_viewport v o d
unfolding clamp_to_viewport
clamp-clamp_again v none d = refl
clamp-clamp_again v (some box) d = elim (Bool-cases (places box d)) [
  | inl first ↦ simp (first, clamp_offsets-clamp_offsets) refl
  | inr placed ↦ simp (placed, clamp_offsets-clamp_offsets) refl
]

-- The window's corner is inside the margins, and where the viewport has room for the box, so is all of
-- it.
pub record IsInside (v box : Box) (o : Offsets) : Type 0 where
  pub from_left : margin ≤ℤ o.left
  pub from_bottom : margin ≤ℤ o.bottom
  pub to_right : margin ≤ℤ max_left v box → o.left ≤ℤ max_left v box
  pub to_top : margin ≤ℤ max_bottom v box → o.bottom ≤ℤ max_bottom v box

pub clamp_offsets-IsInside :
    (v : Box) (l b : ℤ) (box : Box) → IsInside v box (clamp_offsets v l b box)
unfolding clamp_offsets
clamp_offsets-IsInside v l b box = record {
  from_left = clamp-low margin (max_left v box) l;
  from_bottom = clamp-low margin (max_bottom v box) b;
  to_right = λ h. clamp-high margin (max_left v box) l h;
  to_top = λ h. clamp-high margin (max_bottom v box) b h;
}
