-- ===== src/Hooks.antt =====
-- The hooks of webapp/src/hooks that hold state or compute: dragging and resizing a window of the
-- plugin, hiding idle controls, the stored layout, and the tiles of a grid.
pub mod Pixels
pub mod Draggable
pub mod Resizable
pub mod AutoHide
pub mod LayoutMode
pub mod Grid
pub mod Duration
