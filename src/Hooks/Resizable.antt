-- ===== src/Hooks/Resizable.antt =====
-- A window that is resized (webapp/src/hooks/use_resizable.ts), by one pointer at a time. The viewport
-- comes with each event that reads it.
pub mod Bounds
use mattermost_plugin_openta.Base.{
  ◌&&◌, ◌||◌, Bool, true, false, Option, none, some, List, [], ◌∷◌, if◌then◌else◌, not,
}
use mattermost_plugin_openta.Hooks.Pixels.{ℤ, pos, ◌+ℤ◌, ◌-ℤ◌, leb_ℤ, max_ℤ, clamp}

pub record Size : Type 0 where
  pub width : ℤ
  pub height : ℤ

-- `ResizeOpts` without the default size and the key
pub record ResizeOpts : Type 0 where
  pub min_size : Size
  pub max_size : Option Size

abbrev pub viewport_margin : ℤ
viewport_margin = pos 32

abbrev max_or_viewport : (viewport : Size) → Option Size → Size
max_or_viewport viewport none = record {
  width = viewport.width -ℤ viewport_margin;
  height = viewport.height -ℤ viewport_margin;
}
max_or_viewport viewport (some m) = m

unfoldable pub clamp_size : (viewport : Size) → (width height : ℤ) → ResizeOpts → Size
clamp_size viewport width height opts =
    let m = max_or_viewport viewport opts.max_size in
    record {
      width = clamp opts.min_size.width m.width width;
      height = clamp opts.min_size.height m.height height;
    }

pub record ResizeStart : Type 0 where
  pub pointer_x : ℤ
  pub pointer_y : ℤ
  pub start_width : ℤ
  pub start_height : ℤ
  -- the options of the render whose handlers listen
  pub opts : ResizeOpts

pub record ResizePointer : Type 0 where
  pub x : ℤ
  pub y : ℤ
  pub primary : Bool

pub record Resizable : Type 0 where
  pub opts : ResizeOpts
  pub size : Size
  pub is_resizing : Bool
  -- `resizeStartRef`
  pub resize_start : Option ResizeStart
  pub writable : Bool
  pub stored : Option Size

abbrev pub size_or : Size → Option Size → Size
size_or default_size none = default_size
size_or default_size (some s) = s

-- The first render, with the well-formed size of the storage, if there is one.
unfoldable pub mount :
    ResizeOpts → (default_size : Size) → (writable : Bool) → Option Size → Resizable
mount opts default_size writable stored =
    let b = size_or default_size stored in
    record {
      opts = opts;
      size = record { width = max_ℤ b.width opts.min_size.width; height = b.height };
      is_resizing = false;
      resize_start = none;
      writable = writable;
      stored = stored;
    }

abbrev pub same_width : ℤ → ℤ → Bool
same_width m n = leb_ℤ m n && leb_ℤ n m

-- A render with other options, and the effect that raises the width to a minimum that has changed.
unfoldable pub render : ResizeOpts → Resizable → Resizable
render opts r = record r {
  opts = opts;
  size =
      if same_width opts.min_size.width r.opts.min_size.width
        || leb_ℤ opts.min_size.width r.size.width
      then r.size
      else record { width = opts.min_size.width; height = r.size.height };
}

unfoldable pub on_pointer_down : ResizePointer → Resizable → Resizable
on_pointer_down e r = record r {
  is_resizing = true;
  resize_start = some (record {
    pointer_x = e.x;
    pointer_y = e.y;
    start_width = r.size.width;
    start_height = r.size.height;
    opts = r.opts;
  });
}

unfoldable pub resized_to : (viewport : Size) → ResizePointer → ResizeStart → Size
resized_to viewport e s =
    clamp_size viewport (s.start_width +ℤ (e.x -ℤ s.pointer_x))
      (s.start_height +ℤ (e.y -ℤ s.pointer_y)) s.opts

abbrev pub finish : (viewport : Size) → ResizePointer → Option ResizeStart → Resizable → Resizable
finish viewport e none r = r
finish viewport e (some s) r =
    let clamped = resized_to viewport e s in
    record r {
      size = clamped;
      is_resizing = false;
      resize_start = none;
      stored = if r.writable then some clamped else r.stored;
    }

-- `handlePointerUp`, also for `pointercancel`
unfoldable pub handle_pointer_up : (viewport : Size) → ResizePointer → Resizable → Resizable
handle_pointer_up viewport e r = finish viewport e r.resize_start r

abbrev pub follow : (viewport : Size) → ResizePointer → Option ResizeStart → Resizable → Resizable
follow viewport e none r = r
follow viewport e (some s) r =
    if e.primary then record r { size = resized_to viewport e s } else finish viewport e (some s) r

unfoldable pub handle_pointer_move : (viewport : Size) → ResizePointer → Resizable → Resizable
handle_pointer_move viewport e r = follow viewport e r.resize_start r

pub data ResizeEvent : Type 0 where
  renders : ResizeOpts → ResizeEvent
  pointer_down : ResizePointer → ResizeEvent
  pointer_move pointer_up : (viewport : Size) → ResizePointer → ResizeEvent

unfoldable pub step : ResizeEvent → Resizable → Resizable
step (renders opts) r = render opts r
step (pointer_down e) r = on_pointer_down e r
step (pointer_move viewport e) r = handle_pointer_move viewport e r
step (pointer_up viewport e) r = handle_pointer_up viewport e r

unfoldable pub run : List ResizeEvent → Resizable → Resizable
run [] r = r
run (e ∷ es) r = run es (step e r)
