-- ===== src/Hooks/Draggable.antt =====
-- A window that is dragged (webapp/src/hooks/use_draggable.ts). What the page measures, the viewport and
-- the box of the node, comes with each event. Listeners on the window are there during a drag.
pub mod Placing
pub mod Dragging
use mattermost_plugin_openta.Base.{
  Bool, true, false, not, ◌&&◌, Option, none, some, List, [], ◌∷◌, if◌then◌else◌,
}
use mattermost_plugin_openta.Hooks.Pixels.{ℤ, pos, ◌+ℤ◌, ◌-ℤ◌, leb_ℤ, clamp}

pub record Offsets : Type 0 where
  pub left : ℤ
  pub bottom : ℤ

-- `Box`, also for the viewport
pub record Box : Type 0 where
  pub width : ℤ
  pub height : ℤ

pub record DragStart : Type 0 where
  pub pointer_x : ℤ
  pub pointer_y : ℤ
  pub start_left : ℤ
  pub start_bottom : ℤ
  pub box : Box

-- A page event's position, with whether the primary button is down.
pub record Pointer : Type 0 where
  pub x : ℤ
  pub y : ℤ
  pub primary : Bool

abbrev pub margin : ℤ
margin = pos 16

abbrev pub header_inset : ℤ
header_inset = pos 60

abbrev pub app_bar_inset : ℤ
app_bar_inset = pos 60

abbrev pub default_offsets : Offsets
default_offsets = record { left = margin; bottom = margin }

abbrev pub max_left : (viewport box : Box) → ℤ
max_left viewport box = viewport.width -ℤ box.width -ℤ app_bar_inset

abbrev pub max_bottom : (viewport box : Box) → ℤ
max_bottom viewport box = viewport.height -ℤ box.height -ℤ header_inset

unfoldable pub clamp_offsets : (viewport : Box) → (left bottom : ℤ) → (box : Box) → Offsets
clamp_offsets viewport left bottom box = record {
  left = clamp margin (max_left viewport box) left;
  bottom = clamp margin (max_bottom viewport box) bottom;
}

-- `bottom` grows upwards.
unfoldable pub drag_offsets : (viewport : Box) → Pointer → DragStart → Offsets
drag_offsets viewport e start =
    clamp_offsets viewport (start.start_left +ℤ (e.x -ℤ start.pointer_x))
      (start.start_bottom -ℤ (e.y -ℤ start.pointer_y)) start.box

pub record Draggable : Type 0 where
  pub offsets : Offsets
  -- `placedRef`
  pub placed : Bool
  pub is_dragging : Bool
  -- `dragStartRef`
  pub drag_start : Option DragStart
  pub writable : Bool
  -- what the storage holds
  pub stored : Option Offsets

abbrev offsets_or_default : Option Offsets → Offsets
offsets_or_default none = default_offsets
offsets_or_default (some o) = o

abbrev is_present : Option Offsets → Bool
is_present none = false
is_present (some o) = true

-- The first render, with the well-formed offsets of the storage, if there are any.
unfoldable pub mount : (writable : Bool) → Option Offsets → Draggable
mount writable stored = record {
  offsets = offsets_or_default stored;
  placed = is_present stored;
  is_dragging = false;
  drag_start = none;
  writable = writable;
  stored = stored;
}

abbrev pub has_width : Box → Bool
has_width box = not (leb_ℤ box.width (pos 0))

abbrev pub places : Box → Draggable → Bool
places box d = not d.placed && has_width box

abbrev pub base : (viewport box : Box) → Draggable → Offsets
base viewport box d =
    if places box d then record { left = max_left viewport box; bottom = margin } else d.offsets

-- `clampToViewport` of a node with this box. Offsets that are equal are kept, which ends the renders.
abbrev clamp_box : (viewport box : Box) → Draggable → Draggable
clamp_box viewport box d =
    let b = base viewport box d in
    record d {
      offsets = clamp_offsets viewport b.left b.bottom box;
      placed = if places box d then true else d.placed;
    }

unfoldable pub clamp_to_viewport : (viewport : Box) → Option Box → Draggable → Draggable
clamp_to_viewport viewport none d = d
clamp_to_viewport viewport (some box) d = clamp_box viewport box d

abbrev box_or_zero : Option Box → Box
box_or_zero none = record { width = pos 0; height = pos 0 }
box_or_zero (some box) = box

abbrev pub start_of : Pointer → Option Box → Draggable → DragStart
start_of e box d = record {
  pointer_x = e.x;
  pointer_y = e.y;
  start_left = d.offsets.left;
  start_bottom = d.offsets.bottom;
  box = box_or_zero box;
}

unfoldable pub on_pointer_down : Pointer → Option Box → Draggable → Draggable
on_pointer_down e box d = record d { drag_start = some (start_of e box d); is_dragging = true }

abbrev finish : (viewport : Box) → Pointer → Option DragStart → Draggable → Draggable
finish viewport e none d = d
finish viewport e (some start) d =
    let clamped = drag_offsets viewport e start in
    record d {
      offsets = clamped;
      is_dragging = false;
      drag_start = none;
      stored = if d.writable then some clamped else d.stored;
    }

-- `handlePointerUp`, also for `pointercancel`
unfoldable pub handle_pointer_up : (viewport : Box) → Pointer → Draggable → Draggable
handle_pointer_up viewport e d = finish viewport e d.drag_start d

abbrev follow : (viewport : Box) → Pointer → Option DragStart → Draggable → Draggable
follow viewport e none d = d
follow viewport e (some start) d =
    if e.primary
    then record d { offsets = drag_offsets viewport e start }
    else finish viewport e (some start) d

unfoldable pub handle_pointer_move : (viewport : Box) → Pointer → Draggable → Draggable
handle_pointer_move viewport e d = follow viewport e d.drag_start d

pub data DragEvent : Type 0 where
  measures : (viewport : Box) → Option Box → DragEvent
  pointer_down : Pointer → Option Box → DragEvent
  pointer_move pointer_up : (viewport : Box) → Pointer → DragEvent

unfoldable pub step : DragEvent → Draggable → Draggable
step (measures viewport box) d = clamp_to_viewport viewport box d
step (pointer_down e box) d = on_pointer_down e box d
step (pointer_move viewport e) d = handle_pointer_move viewport e d
step (pointer_up viewport e) d = handle_pointer_up viewport e d

unfoldable pub run : List DragEvent → Draggable → Draggable
run [] d = d
run (e ∷ es) d = run es (step e d)
