-- ===== src/Controller/Handlers/Steps.antt =====
-- Each handler and each call of the local user preserves a predicate that is closed under what they
-- do.
use mattermost_plugin_openta.Base.{ℕ, String, ◌≡◌, refl, Bool, true, Option, none, some}
use mattermost_plugin_openta.Store.Action.{Action, Role, TrackKind}
use mattermost_plugin_openta.Controller.State.{Controller, enable_mic, enable_cam}
use mattermost_plugin_openta.Controller.Events.{
  wants_mic, wants_cam, mute_now, on_force_muted, on_role_updated, on_mic_published,
  on_cam_published, on_track_subscribed, on_track_unsubscribed, on_active_speakers, on_mic_muted,
  on_camera_muted, on_screen_share_ended, on_participant_joined, on_participant_left,
  on_livekit_connected, on_hand_raised, on_hand_lowered, on_raise_hands_toggled,
}
use mattermost_plugin_openta.Controller.Local.{
  toggle_mic, mic_toggle_settles, toggle_cam, cam_toggle_settles, apply_mic_device_change,
  mic_withdrawn, mic_republished, apply_cam_device_change, cam_withdrawn, cam_republished,
  toggle_screen_share, screen_settles, with_client, mute_all, live_room,
}
use mattermost_plugin_openta.Controller.Calls.{
  Happening, client_joined, client_left, client_force_muted, client_role_updated, client_hand,
  client_raise_hands, media_connected, mic_published, cam_published, track_added, track_gone,
  speakers, mic_muted, camera_muted, share_ended, toggles_mic, mic_toggled, toggles_cam,
  cam_toggled, toggles_screen, screen_result, mic_changes, mic_off, mic_on, cam_changes, cam_off,
  cam_on, commands, mutes_all, step,
}
use mattermost_plugin_openta.Controller.Handlers.{is_local, IsClosed}
use mattermost_plugin_openta.Controller.Handlers.Toggles.{
  switched_mic, mic_done, shown_cam, switched_cam, cam_done, switched_screen, screen_done,
  mic_changed, mic_again, cam_changed, told, either, kept_mic, kept_cam, kept_registry,
}

module _ (P : Controller → Type 0) (c : IsClosed P) where
  muted_by_force : (w : Controller) (lk : Option ℕ) → P w → P (mute_now lk w)
  muted_by_force w none p = p
  muted_by_force w (some lk) p = c.writes _ _ refl (c.asks _ w refl p)

  role_changed :
      (id : Option String) (role : Role) (w : Controller) → P w → P (on_role_updated id role w)
  unfolding on_role_updated
  role_changed id role w p = let q = c.writes _ w refl p in either P c _ _ _ (c.writes _ _ refl q) q

  cam_published_P :
      (b h : Bool) (id t : String) (w : Controller) → P w → P (on_cam_published b h id t w)
  unfolding on_cam_published
  cam_published_P b h id t w p =
      let shown = either P c h _ w (c.writes _ _ refl (kept_registry P c _ w p)) p in
      either P c b _ w (c.writes _ _ refl shown) p

  media_up : (lk : ℕ) (b : Bool) (w : Controller) → P w → P (on_livekit_connected lk b w)
  unfolding on_livekit_connected
  media_up lk b w p =
      let q = c.keeps w.registry w.mic_toggle w.cam_toggle w.screen_toggle none w p in
      let heard =
        either P c (wants_mic w.media_restore b) _ _ (c.asks (enable_mic lk) _ refl q)
          (c.writes (Action.set_livekit_connected true) _ refl q) in
      either P c (wants_cam w.media_restore) _ _ (c.asks (enable_cam lk) _ refl heard) heard

  subscribed :
      (id : String) (k : TrackKind) (o : Option String) (w : Controller)
      → P w
      → P (on_track_subscribed id k o w)
  unfolding on_track_subscribed
  subscribed id k none w p = p
  subscribed id k (some t) w p = either P c _ _ w (c.writes _ _ refl (kept_registry P c _ w p)) p

  unsubscribed :
      (id : String) (k : TrackKind) (o : Option String) (w : Controller)
      → P w
      → P (on_track_unsubscribed id k o w)
  unfolding on_track_unsubscribed
  unsubscribed id k none w p = c.writes _ w refl p
  unsubscribed id k (some t) w p = c.writes _ _ refl (either P c _ _ w (kept_registry P c _ w p) p)

  mic_seen :
      (id local_id : String) (b : Bool) (w : Controller) → P w → P (on_mic_muted id local_id b w)
  unfolding on_mic_muted
  mic_seen id local_id b w p =
      let q = c.writes _ w refl p in either P c _ _ _ (c.writes _ _ refl q) q

  -- A handler of a room event other than the joins and the drops, and a call of the local user other
  -- than a join and a leave.
  pub step-local : (h : Happening) (w : Controller) → is_local h ≡ true → P w → P (step h w)
  unfolding step on_participant_joined on_participant_left on_force_muted on_hand_raised
      on_hand_lowered on_raise_hands_toggled on_mic_published on_active_speakers on_camera_muted
      on_screen_share_ended toggle_mic mic_toggle_settles toggle_cam cam_toggle_settles
      apply_mic_device_change mic_withdrawn mic_republished apply_cam_device_change cam_withdrawn
      cam_republished toggle_screen_share screen_settles with_client mute_all
  step-local (client_joined x n) w h p = c.writes _ _ refl (c.writes _ w refl p)
  step-local (client_left id n) w h p = c.writes _ _ refl (c.writes _ w refl p)
  step-local client_force_muted w h p = muted_by_force w w.livekit p
  step-local (client_role_updated id role) w h p = role_changed id role w p
  step-local (client_hand id b) w h p = either P c b _ _ (c.writes _ w refl p) (c.writes _ w refl p)
  step-local (client_raise_hands b) w h p = c.writes _ w refl p
  step-local (media_connected lk mute) w h p = media_up lk mute w p
  step-local (mic_published b) w h p = c.writes _ _ refl (either P c b _ w (c.writes _ w refl p) p)
  step-local (cam_published b t id tid) w h p = cam_published_P b t id tid w p
  step-local (track_added id k o) w h p = subscribed id k o w p
  step-local (track_gone id k o) w h p = unsubscribed id k o w p
  step-local (speakers ids) w h p = c.writes _ _ refl (c.writes _ w refl p)
  step-local (mic_muted id l b) w h p = mic_seen id l b w p
  step-local (camera_muted id b) w h p = c.writes _ w refl p
  step-local (share_ended id t) w h p =
      c.writes _ _ refl (c.writes _ _ refl (kept_registry P c _ w p))
  step-local (toggles_mic b) w h p = switched_mic P c w.mic_toggle (live_room w) b w p
  step-local (mic_toggled b) w h p = kept_mic P c none _ (mic_done P c w.mic_toggle b w p)
  step-local (toggles_cam b id) w h p = switched_cam P c w.cam_toggle (live_room w) b id w p
  step-local (cam_toggled b t id) w h p = kept_cam P c none _ (cam_done P c w.cam_toggle b t id w p)
  step-local (toggles_screen b id) w h p =
      switched_screen P c w.screen_toggle (live_room w) b id w p
  step-local (screen_result r e id) w h p = screen_done P c w.screen_toggle r e id w p
  step-local (mic_changes b) w h p = mic_changed P c (live_room w) b w p
  step-local (mic_off b) w h p =
      either P c b _ _ (mic_again P c w.livekit w p) (c.writes _ w refl p)
  step-local (mic_on b) w h p = either P c b w _ p (c.writes _ w refl p)
  step-local (cam_changes b id) w h p = cam_changed P c (live_room w) b id w p
  step-local (cam_off lk b) w h p = either P c b _ _ (c.asks _ w refl p) (c.writes _ w refl p)
  step-local (cam_on b t id) w h p = either P c b _ _ (shown_cam P c t id w p) (c.writes _ w refl p)
  step-local (commands cmd) w h p = told P c w.client _ w p
  step-local (mutes_all ps) w h p = told P c w.client _ w p
  step-local _ w h p = cc
