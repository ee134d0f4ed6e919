-- ===== src/Controller/Local/Tiles.antt =====
-- What a participant's tile finds after the camera is toggled, and after tracks come and go.
use mattermost_plugin_openta.Base.{
  ℕ, String, ◌≡◌, refl, Bool, true, false, not, Option, none, some, List, ◌∷◌, contains, remove,
  contains-remove, eq_iff, if◌then◌else◌, arith, ◌∙◌, ap,
}
use mattermost_plugin_openta.Store.Action.{
  Action, TrackKind, audio, video, screen, track_subscribed, track_unsubscribed, set_cam_enabled,
}
use mattermost_plugin_openta.Store.Root.{root_reducer, select_cam_enabled}
use mattermost_plugin_openta.Store.Session.{session_reducer}
use mattermost_plugin_openta.Store.Tracks.{tracks_reducer}
use mattermost_plugin_openta.Store.Tracks.Laws.{
  IsValid, track, track_step, tracks-track, tracks-IsValid, IsProper,
}
use mattermost_plugin_openta.Controller.State.{
  Controller, Switch, turning_on, turning_off, enable_cam, disable_cam, dispatch, act,
}
use mattermost_plugin_openta.Controller.Local.{
  local_track_id, toggle_cam, cam_toggle_settles, register_local_cam_track, hide_cam,
}

-- The camera is on or off for the local participant: in the session, in the tracks slice, and in the
-- registry; no toggle is in flight.
pub record CamIs (b : Bool) (id : String) (w : Controller) : Type 0 where
  pub enabled : select_cam_enabled w.root ≡ b
  pub tile : track w.root.tracks id video ≡ (if b then some (local_track_id id "video") else none)
  pub registered : contains (local_track_id id "video") w.registry ≡ b
  pub idle : w.cam_toggle ≡ none

pub dispatch-track :
    (a : Action) (w : Controller) (j : String) (l : TrackKind)
    → IsValid w.root.tracks
    → track (dispatch a w).root.tracks j l ≡ track_step (track w.root.tracks) a j l
unfolding dispatch root_reducer
dispatch-track a w j l v = tracks-track w.root.tracks a j l v

subscribed_here :
    (id : String) (l : TrackKind) (t : String) (m : String → TrackKind → Option String)
    → track_step m (track_subscribed id l t) id l ≡ some t
subscribed_here id audio t m = ground (arith, eq_iff id id)
subscribed_here id video t m = ground (arith, eq_iff id id)
subscribed_here id screen t m = ground (arith, eq_iff id id)

pub unsubscribed_here :
    (id : String) (l : TrackKind) (m : String → TrackKind → Option String)
    → track_step m (track_unsubscribed id l) id l ≡ none
unsubscribed_here id audio m = ground (arith, eq_iff id id)
unsubscribed_here id video m = ground (arith, eq_iff id id)
unsubscribed_here id screen m = ground (arith, eq_iff id id)

contains_self : (x : String) (xs : List String) → contains x (x ∷ xs) ≡ true
contains_self x xs = ground (arith, eq_iff x x)

removed_self : (x : String) (xs : List String) → contains x (remove x xs) ≡ false
removed_self x xs = contains-remove x x xs ∙ ground (arith, eq_iff x x)

pub dispatch-IsValid :
    (a : Action) (w : Controller)
    → IsProper a
    → IsValid w.root.tracks
    → IsValid (dispatch a w).root.tracks
unfolding dispatch root_reducer
dispatch-IsValid a w p v = tracks-IsValid w.root.tracks a p v

kept_tracks :
    (b : Bool) (w : Controller) → (dispatch (set_cam_enabled b) w).root.tracks ≡ w.root.tracks
unfolding dispatch root_reducer tracks_reducer
kept_tracks b w = refl

pub kept_registry : (a : Action) (w : Controller) → (dispatch a w).registry ≡ w.registry
unfolding dispatch
kept_registry a w = refl

enabled_as :
    (b : Bool) (w : Controller) → select_cam_enabled (dispatch (set_cam_enabled b) w).root ≡ b
unfolding dispatch root_reducer session_reducer
enabled_as b w = refl

-- The states that the toggle goes through.
switched : (b : Bool) → Option Switch → Controller → Controller
switched b s w = record (dispatch (set_cam_enabled b) w) { cam_toggle = s }

toggled_off :
    (id : String) (lk : ℕ) (w : Controller)
    → w.has_store ≡ true
    → w.livekit ≡ some lk
    → w.cam_toggle ≡ none
    → cam_toggle_settles true true id (toggle_cam true id w)
      ≡ switched false none
          (act (disable_cam lk) (record (hide_cam id w) { cam_toggle = some (turning_off lk) }))
unfolding cam_toggle_settles toggle_cam switched
toggled_off id lk w h l e = simp (h, l, e) refl

toggled_on :
    (id : String) (lk : ℕ) (w : Controller)
    → w.has_store ≡ true
    → w.livekit ≡ some lk
    → w.cam_toggle ≡ none
    → cam_toggle_settles true true id (toggle_cam false id w)
      ≡ switched true none (
          register_local_cam_track id
            (act (enable_cam lk) (record w { cam_toggle = some (turning_on lk) })))
unfolding cam_toggle_settles toggle_cam switched
toggled_on id lk w h l e = simp (h, l, e) refl

off-CamIs :
    (id : String) (lk : ℕ) (w : Controller)
    → IsValid w.root.tracks
    → CamIs false id (
        switched false none
          (act (disable_cam lk) (record (hide_cam id w) { cam_toggle = some (turning_off lk) })))
unfolding switched hide_cam
off-CamIs id lk w v = record {
  enabled = enabled_as false _;
  tile =
      ap (λ s. track s id video) (kept_tracks false _)
      ∙ dispatch-track (track_unsubscribed id video) _ id video v
      ∙ unsubscribed_here id video (track w.root.tracks);
  registered =
      ap (contains (local_track_id id "video"))
        (kept_registry (set_cam_enabled false) _ ∙ kept_registry (track_unsubscribed id video) _)
      ∙ removed_self (local_track_id id "video") w.registry;
  idle = refl;
}

on-CamIs :
    (id : String) (w : Controller)
    → IsValid w.root.tracks
    → CamIs true id (switched true none (register_local_cam_track id w))
unfolding switched register_local_cam_track
on-CamIs id w v = record {
  enabled = enabled_as true _;
  tile =
      ap (λ s. track s id video) (kept_tracks true _)
      ∙ dispatch-track (track_subscribed id video (local_track_id id "video")) _ id video v
      ∙ subscribed_here id video (local_track_id id "video") (track w.root.tracks);
  registered =
      ap (contains (local_track_id id "video"))
        (kept_registry (set_cam_enabled true) _ ∙ kept_registry (track_subscribed id video _) _)
      ∙ contains_self (local_track_id id "video") (remove (local_track_id id "video") w.registry);
  idle = refl;
}

-- In a call without a toggle in flight and with a valid tracks slice, a toggle of the camera that works
-- turns it on if it was off and off if it was on, in the session, the tracks slice and the registry
-- alike.
pub toggle-CamIs :
    (b : Bool) (id : String) (lk : ℕ) (w : Controller)
    → w.has_store ≡ true
    → w.livekit ≡ some lk
    → w.cam_toggle ≡ none
    → IsValid w.root.tracks
    → CamIs (not b) id (cam_toggle_settles true true id (toggle_cam b id w))
toggle-CamIs true id lk w h l e v = rw (toggled_off id lk w h l e) (off-CamIs id lk w v)
toggle-CamIs false id lk w h l e v = rw (toggled_on id lk w h l e) (on-CamIs id _ v)
