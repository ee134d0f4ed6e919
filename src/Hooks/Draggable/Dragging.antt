-- ===== src/Hooks/Draggable/Dragging.antt =====
-- Where a window lands that is dragged.
use mattermost_plugin_openta.Base.{
  ◌≡◌, refl, Bool, true, false, Option, none, some, List, [], ◌∷◌, if◌then◌else◌,
}
use mattermost_plugin_openta.Hooks.Draggable.{
  Offsets, Box, DragStart, Pointer, Draggable, drag_offsets, clamp_offsets, clamp_to_viewport,
  start_of, on_pointer_down, handle_pointer_up, handle_pointer_move, DragEvent, measures,
  pointer_down, pointer_move, pointer_up, step, run,
}
use mattermost_plugin_openta.Hooks.Pixels.{
  ℤ, pos, ◌≤ℤ◌, ◌+ℤ◌, ◌-ℤ◌, clamp, clamp-within, clamp-below, clamp-above, clamp-empty,
}

-- What happens during a drag: moves with the primary button down, and renders.
abbrev pub is_during : DragEvent → Bool
is_during (pointer_move v e) = e.primary
is_during (measures v box) = true
is_during _ = false

abbrev pub AllDuring : List DragEvent → Type 0
AllDuring [] = Unit
AllDuring (e ∷ es) = (is_during e ≡ true) × AllDuring es

-- A drag from this start goes on, and the storage is as before.
record IsDragged (s : DragStart) (w : Bool) (o : Option Offsets) (d : Draggable) : Type 0 where
  start : d.drag_start ≡ some s
  writable : d.writable ≡ w
  stored : d.stored ≡ o

step-IsDragged :
    (s : DragStart) (w : Bool) (o : Option Offsets) (e : DragEvent) (d : Draggable)
    → is_during e ≡ true
    → IsDragged s w o d
    → IsDragged s w o (step e d)
unfolding step clamp_to_viewport handle_pointer_move
step-IsDragged s w o (measures v none) d h k = k
step-IsDragged s w o (measures v (some box)) d h k = record {
  start = k.start;
  writable = k.writable;
  stored = k.stored;
}
step-IsDragged s w o (pointer_down e box) d h k = cc
step-IsDragged s w o (pointer_move v e) d h k =
    simp (k.start, h) (record { start = refl; writable = k.writable; stored = k.stored })
step-IsDragged s w o (pointer_up v e) d h k = cc

run-IsDragged :
    (s : DragStart) (w : Bool) (o : Option Offsets) (es : List DragEvent) (d : Draggable)
    → AllDuring es
    → IsDragged s w o d
    → IsDragged s w o (run es d)
unfolding run
run-IsDragged s w o [] d h k = k
run-IsDragged s w o (e ∷ es) d h k =
    run-IsDragged s w o es (step e d) h.1 (step-IsDragged s w o e d h.0 k)

-- The end of a drag: the pointer goes up, or moves without its button.
abbrev pub drop : (missed : Bool) → (viewport : Box) → Pointer → DragEvent
drop true v e = pointer_move v e
drop false v e = pointer_up v e

-- Where a coordinate lands that is aimed at `t`, from `low` to `high`: there, or at the end of the range
-- that is nearer; at `low` where the range is empty.
abbrev pub LandsAt : (low high t x : ℤ) → Type 0
LandsAt low high t x =
    (low ≤ℤ t → t ≤ℤ high → x ≡ t)
    × (t ≤ℤ low → x ≡ low)
    × (low ≤ℤ high → high ≤ℤ t → x ≡ high)
    × (high ≤ℤ low → x ≡ low)

clamp-LandsAt : (low high t : ℤ) → LandsAt low high t (clamp low high t)
clamp-LandsAt low high t = (
  clamp-within low high t,
  clamp-below low high t,
  clamp-above low high t,
  clamp-empty low high t,
)

-- A window that was dropped: `d` before the drag, `e` where the pointer went down on the box, `f` where
-- the drag ended. It keeps 16 pixels to the left and the bottom and 60 to the right and the top; the
-- bottom offset grows as the pointer goes up.
pub record Dropped (v box : Box) (e f : Pointer) (d q : Draggable) : Type 0 where
  pub left :
      LandsAt
        (pos 16)
        (v.width -ℤ box.width -ℤ pos 60)
        (d.offsets.left +ℤ (f.x -ℤ e.x))
        q.offsets.left
  pub bottom :
      LandsAt
        (pos 16)
        (v.height -ℤ box.height -ℤ pos 60)
        (d.offsets.bottom -ℤ (f.y -ℤ e.y))
        q.offsets.bottom
  pub ended : (q.is_dragging ≡ false) × (q.drag_start ≡ none)
  pub stored : q.stored ≡ (if d.writable then some q.offsets else d.stored)

drop-Dropped :
    (box : Box) (m : Bool) (v : Box) (e f : Pointer) (d q : Draggable)
    → f.primary ≡ false
    → IsDragged (start_of e (some box) d) d.writable d.stored q
    → Dropped v box e f d (step (drop m v f) q)
unfolding step handle_pointer_move handle_pointer_up drag_offsets clamp_offsets
drop-Dropped box true v e f d q h k =
    simp (k.start, h, k.writable, k.stored)
      (record {
        left = clamp-LandsAt _ _ _;
        bottom = clamp-LandsAt _ _ _;
        ended = (refl, refl);
        stored = refl;
      })
drop-Dropped box false v e f d q h k =
    simp (k.start, k.writable, k.stored)
      (record {
        left = clamp-LandsAt _ _ _;
        bottom = clamp-LandsAt _ _ _;
        ended = (refl, refl);
        stored = refl;
      })

-- However the pointer moves and the page renders in between, a drag of a box moves it as far as the
-- pointer has moved from its start to the drag's end, or to the end of the range that is nearer where
-- that is outside; the offsets are stored where the storage can be written, and the drag is over. It
-- ends when the pointer goes up, or where that was missed, with the first move without the button.
pub run-Dropped :
    (e : Pointer) (box : Box) (es : List DragEvent) (m : Bool) (v : Box) (f : Pointer)
    (d : Draggable)
    → AllDuring es
    → f.primary ≡ false
    → Dropped v box e f d (step (drop m v f) (run es (on_pointer_down e (some box) d)))
unfolding on_pointer_down
run-Dropped e box es m v f d h p = drop-Dropped box m v e f d _ p (
    run-IsDragged (start_of e (some box) d) d.writable d.stored es _ h
      (record { start = refl; writable = refl; stored = refl }))
