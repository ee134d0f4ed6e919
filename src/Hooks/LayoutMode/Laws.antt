-- ===== src/Hooks/LayoutMode/Laws.antt =====
-- A layout is read as it was set.
use mattermost_plugin_openta.Base.{
  String, ◌≡◌, refl, true, some, lookup-insert, Storage, eq_iff, arith,
}
use mattermost_plugin_openta.Hooks.LayoutMode.{
  LayoutMode, speaker, grid, screen_focus, mode_text, valid_mode, read_stored_mode, set_layout_mode,
}

-- A layout that was set is the state and, in a storage that can be read and written, the next mount's;
-- exactly the texts of the three layouts are valid.
pub read-set :
    (m : LayoutMode) (s : Storage)
    → s.readable ≡ true
    → s.writable ≡ true
    → (read_stored_mode (set_layout_mode m s).0 ≡ (set_layout_mode m s).1)
      × (valid_mode (mode_text m) ≡ some m)
      × ((t : String) → valid_mode t ≡ some m → mode_text m ≡ t)
unfolding read_stored_mode set_layout_mode
read-set speaker s r w =
    (simp (r, w, lookup-insert) refl, refl, λ t h. ground (arith, h, eq_iff t "speaker"))
read-set grid s r w =
    (simp (r, w, lookup-insert) refl, refl, λ t h. ground (arith, h, eq_iff t "grid"))
read-set screen_focus s r w =
    (simp (r, w, lookup-insert) refl, refl, λ t h. ground (arith, h, eq_iff t "screen-focus"))
