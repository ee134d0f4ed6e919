-- ===== src/Tests/Hooks.antt =====
-- The theorems on hooks, at concrete windows.
use mattermost_plugin_openta.Base.{
  ◌<◌, decimal, digits, ◌≡◌, refl, true, false, none, some, List, [], ◌∷◌, ℕ, ◌-◌, leb, not, arith,
  ◌⊎◌,
}
use Prim.Native.Nat.{◌*◌, ◌/◌}
use mattermost_plugin_openta.Hooks.Pixels.{pos, negsuc}
use mattermost_plugin_openta.Hooks.Draggable.{
  Box, Pointer, Draggable, DragEvent, measures, pointer_move, mount, on_pointer_down, step, run,
}
use mattermost_plugin_openta.Hooks.Draggable.Dragging.{Dropped, drop, run-Dropped}
use mattermost_plugin_openta.Hooks.Resizable.{
  Size, ResizeOpts, ResizePointer, ResizeEvent, renders, pointer_down, pointer_up,
}
use mattermost_plugin_openta.Hooks.Resizable
use mattermost_plugin_openta.Hooks.Resizable.Bounds.{IsWide, run-IsWide}
use mattermost_plugin_openta.Hooks.AutoHide.{
  HideEvent, activity, timer, enters, leaves, renders as shows,
}
use mattermost_plugin_openta.Hooks.AutoHide
use mattermost_plugin_openta.Hooks.AutoHide.Visible.{IsHiding, run-IsHiding}
use mattermost_plugin_openta.Hooks.Duration.{format_duration, post_duration}
use mattermost_plugin_openta.Hooks.Duration.Reading.{read_clock, durations_agree}
use mattermost_plugin_openta.Hooks.Grid.{Numbers, Area, empty_fit, has_room, best_grid_fit}
use mattermost_plugin_openta.Hooks.Grid.Best.{Orders, NoneLarger, OneOf, best_grid_fit-NoneLarger}
use mattermost_plugin_openta.Hooks.Grid

abbrev viewport : Box
viewport = record { width = pos 1280; height = pos 720 }

abbrev box : Box
box = record { width = pos 300; height = pos 200 }

abbrev window : Draggable
window = mount true none

abbrev pressed : Pointer
pressed = record { x = pos 100; y = pos 600; primary = true }

abbrev released : Pointer
released = record { x = negsuc 4; y = pos 90; primary = false }

abbrev drag : List DragEvent
drag = pointer_move viewport pressed ∷ measures viewport (some box) ∷ []

run-Dropped_example :
    Dropped viewport box pressed released window
      (step (drop false viewport released) (run drag (on_pointer_down pressed (some box) window)))
run-Dropped_example =
    run-Dropped pressed box drag false viewport released window (refl, (refl, tt)) refl

abbrev least : ResizeOpts
least = record { min_size = record { width = pos 320; height = pos 200 }; max_size = none }

abbrev gesture : List ResizeEvent
gesture =
    pointer_down (record { x = pos 500; y = pos 500; primary = true })
    ∷ pointer_up (record { width = pos 1280; height = pos 720 })
        (record { x = pos 10; y = pos 10; primary = false })
    ∷ renders least
    ∷ []

run-IsWide_example : IsWide (
    Resizable.run gesture
      (Resizable.mount least (record { width = pos 640; height = pos 480 }) true none))
unfolding Resizable.step Resizable.mount Resizable.on_pointer_down Resizable.handle_pointer_up
run-IsWide_example =
    run-IsWide least (record { width = pos 640; height = pos 480 }) true none gesture
      (λ h. refl, tt)

abbrev idle : List HideEvent
idle = activity ∷ timer ∷ enters ∷ shows false ∷ shows true ∷ leaves ∷ []

run-IsHiding_example : IsHiding (AutoHide.run idle (AutoHide.mount true))
run-IsHiding_example = run-IsHiding true idle

abbrev naturals : Numbers ℕ
naturals = record {
  of_nat = λ n. n;
  minus = λ x y. x - y;
  times = λ x y. x * y;
  divided = λ x y. x / y;
  less_equal = leb;
  greater = λ x y. not (leb x y);
}

naturals-Orders : Orders naturals
naturals-Orders = record {
  never = λ x. ground arith;
  one_way = λ x y h. ground arith;
  chain = λ x y z h i. ground arith;
}

abbrev room_box : Area ℕ
room_box = record { width = 88; height = 48; gap = 8; aspect = 2 }

-- Three tiles stand in two columns.
three_tiles :
    best_grid_fit naturals room_box 3 ≡ record { columns = 2; tile_width = 40; tile_height = 20 }
unfolding best_grid_fit Grid.tile
three_tiles = refl

best_grid_fit-NoneLarger_example :
    NoneLarger naturals room_box 3 3 1 (best_grid_fit naturals room_box 3)
    × ((best_grid_fit naturals room_box 3 ≡ empty_fit naturals)
        ⊎ OneOf naturals room_box 3 3 1 (best_grid_fit naturals room_box 3))
best_grid_fit-NoneLarger_example = best_grid_fit-NoneLarger naturals naturals-Orders room_box 3 refl

-- An hour and five seconds, and the same in the post.
durations_agree_example :
    (read_clock (format_duration 3605) ≡ 3605)
    × (read_clock (post_duration 3605) ≡ 3605)
    × (3605 < 3600 → format_duration 3605 ≡ post_duration 3605)
durations_agree_example = durations_agree 3605

hour_text : format_duration 3605 ≡ "1:00:05"
unfolding format_duration decimal digits
hour_text = refl
