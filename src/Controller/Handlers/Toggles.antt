-- ===== src/Controller/Handlers/Toggles.antt =====
-- The local user's calls, and the results of what they await, preserve a predicate that is closed
-- under what they do.
use mattermost_plugin_openta.Base.{
  ℕ, String, refl, Bool, true, false, Option, none, some, List, if◌then◌else◌,
}
use mattermost_plugin_openta.Signaling.Room.{Command}
use mattermost_plugin_openta.Controller.State.{
  Controller, Switch, turning_on, turning_off, ScreenStage, withdrawing, capturing, listing,
  picking, capturing_source,
}
use mattermost_plugin_openta.Controller.Local.{
  ScreenResult, withdrawn, captured, not_captured, listed, not_listed, picked, switch_mic,
  mic_switched, register_local_cam_track, hide_cam, switch_cam, cam_switched, withdraw_mic,
  republish_mic, withdraw_cam, show_cam, switch_screen, shares, screen_next, after_pick, tell,
}
use mattermost_plugin_openta.Controller.Handlers.{IsClosed}

module _ (P : Controller → Type 0) (c : IsClosed P) where
  pub either : (b : Bool) (x y : Controller) → P x → P y → P (if b then x else y)
  either true x y p q = p
  either false x y p q = q

  pub kept_registry : (ids : List String) (w : Controller) → P w → P (record w { registry = ids })
  kept_registry ids w p = c.keeps ids w.mic_toggle w.cam_toggle w.screen_toggle w.media_restore w p

  pub kept_mic : (s : Option Switch) (w : Controller) → P w → P (record w { mic_toggle = s })
  kept_mic s w p = c.keeps w.registry s w.cam_toggle w.screen_toggle w.media_restore w p

  pub kept_cam : (s : Option Switch) (w : Controller) → P w → P (record w { cam_toggle = s })
  kept_cam s w p = c.keeps w.registry w.mic_toggle s w.screen_toggle w.media_restore w p

  pub kept_screen :
      (s : Option ScreenStage) (w : Controller) → P w → P (record w { screen_toggle = s })
  kept_screen s w p = c.keeps w.registry w.mic_toggle w.cam_toggle s w.media_restore w p

  pub switched_mic :
      (s : Option Switch) (lk : Option ℕ) (b : Bool) (w : Controller)
      → P w
      → P (switch_mic s lk b w)
  switched_mic (some s) lk b w p = p
  switched_mic none none b w p = p
  switched_mic none (some lk) true w p = c.asks _ _ refl (kept_mic _ w p)
  switched_mic none (some lk) false w p = c.asks _ _ refl (kept_mic _ w p)

  pub mic_done : (s : Option Switch) (b : Bool) (w : Controller) → P w → P (mic_switched s b w)
  mic_done none b w p = p
  mic_done (some (turning_on lk)) true w p = c.writes _ w refl p
  mic_done (some (turning_off lk)) true w p = c.writes _ w refl p
  mic_done (some (turning_on lk)) false w p = p
  mic_done (some (turning_off lk)) false w p = p

  pub shown_cam : (b : Bool) (id : String) (w : Controller) → P w → P (show_cam b id w)
  unfolding register_local_cam_track
  shown_cam true id w p = c.writes _ _ refl (kept_registry _ w p)
  shown_cam false id w p = p

  pub hidden_cam : (id : String) (w : Controller) → P w → P (hide_cam id w)
  unfolding hide_cam
  hidden_cam id w p = c.writes _ _ refl (kept_registry _ w p)

  pub switched_cam :
      (s : Option Switch) (lk : Option ℕ) (b : Bool) (id : String) (w : Controller)
      → P w
      → P (switch_cam s lk b id w)
  switched_cam (some s) lk b id w p = p
  switched_cam none none b id w p = p
  switched_cam none (some lk) true id w p = c.asks _ _ refl (kept_cam _ _ (hidden_cam id w p))
  switched_cam none (some lk) false id w p = c.asks _ _ refl (kept_cam _ w p)

  pub cam_done :
      (s : Option Switch) (b h : Bool) (id : String) (w : Controller)
      → P w
      → P (cam_switched s b h id w)
  cam_done none b h id w p = p
  cam_done (some (turning_on lk)) true h id w p = c.writes _ _ refl (shown_cam h id w p)
  cam_done (some (turning_off lk)) true h id w p = c.writes _ w refl p
  cam_done (some (turning_on lk)) false h id w p = p
  cam_done (some (turning_off lk)) false h id w p = p

  pub switched_screen :
      (s : Option ScreenStage) (lk : Option ℕ) (b : Bool) (id : String) (w : Controller)
      → P w
      → P (switch_screen s lk b id w)
  switched_screen (some s) lk b id w p = p
  switched_screen none none b id w p = p
  switched_screen none (some lk) true id w p =
      c.asks _ _ refl
        (c.writes _ _ refl (c.keeps _ w.mic_toggle w.cam_toggle _ w.media_restore w p))
  switched_screen none (some lk) false id w p = c.asks _ _ refl (kept_screen _ w p)

  shared : (h : Bool) (id : String) (w : Controller) → P w → P (shares h id w)
  unfolding shares
  shared true id w p =
      c.writes _ _ refl (kept_screen none _ (c.writes _ _ refl (kept_registry _ w p)))
  shared false id w p = c.writes _ _ refl (kept_screen none w p)

  picked_one : (lk : ℕ) (o : Option String) (w : Controller) → P w → P (after_pick lk o w)
  picked_one lk none w p = kept_screen none w p
  picked_one lk (some id) w p =
      either _ _ _ (c.asks _ _ refl (kept_screen _ w p)) (kept_screen none w p)

  pub screen_done :
      (s : Option ScreenStage) (r : ScreenResult) (e : Bool) (id : String) (w : Controller)
      → P w
      → P (screen_next s r e id w)
  screen_done (some withdrawing) (withdrawn true) e id w p =
      c.writes _ _ refl (kept_screen none w p)
  screen_done (some withdrawing) (withdrawn false) e id w p = kept_screen none w p
  screen_done (some (capturing lk)) (captured h) e id w p = shared h id w p
  screen_done (some (capturing lk)) not_captured e id w p =
      either e _ _ (c.asks _ _ refl (kept_screen _ w p)) (kept_screen none w p)
  screen_done (some (listing lk)) (listed true) e id w p = c.asks _ _ refl (kept_screen _ w p)
  screen_done (some (listing lk)) (listed false) e id w p = c.asks _ _ refl (kept_screen none w p)
  screen_done (some (listing lk)) not_listed e id w p = kept_screen none w p
  screen_done (some (picking lk)) (picked o) e id w p = picked_one lk o w p
  screen_done (some (capturing_source lk)) (captured h) e id w p = shared h id w p
  screen_done (some (capturing_source lk)) not_captured e id w p = kept_screen none w p
  screen_done none r e id w p = p
  screen_done (some withdrawing) (captured h) e id w p = p
  screen_done (some withdrawing) not_captured e id w p = p
  screen_done (some withdrawing) (listed b) e id w p = p
  screen_done (some withdrawing) not_listed e id w p = p
  screen_done (some withdrawing) (picked o) e id w p = p
  screen_done (some (capturing lk)) (withdrawn b) e id w p = p
  screen_done (some (capturing lk)) (listed b) e id w p = p
  screen_done (some (capturing lk)) not_listed e id w p = p
  screen_done (some (capturing lk)) (picked o) e id w p = p
  screen_done (some (listing lk)) (withdrawn b) e id w p = p
  screen_done (some (listing lk)) (captured h) e id w p = p
  screen_done (some (listing lk)) not_captured e id w p = p
  screen_done (some (listing lk)) (picked o) e id w p = p
  screen_done (some (picking lk)) (withdrawn b) e id w p = p
  screen_done (some (picking lk)) (captured h) e id w p = p
  screen_done (some (picking lk)) not_captured e id w p = p
  screen_done (some (picking lk)) (listed b) e id w p = p
  screen_done (some (picking lk)) not_listed e id w p = p
  screen_done (some (capturing_source lk)) (withdrawn b) e id w p = p
  screen_done (some (capturing_source lk)) (listed b) e id w p = p
  screen_done (some (capturing_source lk)) not_listed e id w p = p
  screen_done (some (capturing_source lk)) (picked o) e id w p = p

  pub mic_changed : (lk : Option ℕ) (b : Bool) (w : Controller) → P w → P (withdraw_mic lk b w)
  mic_changed none b w p = p
  mic_changed (some lk) b w p = either b _ w (c.asks _ w refl p) p

  pub mic_again : (lk : Option ℕ) (w : Controller) → P w → P (republish_mic lk w)
  mic_again none w p = c.writes _ w refl p
  mic_again (some lk) w p = c.asks _ w refl p

  pub cam_changed :
      (lk : Option ℕ) (b : Bool) (id : String) (w : Controller) → P w → P (withdraw_cam lk b id w)
  cam_changed none b id w p = p
  cam_changed (some lk) b id w p = either b _ w (c.asks _ _ refl (hidden_cam id w p)) p

  pub told : (k : Option ℕ) (cmd : Command) (w : Controller) → P w → P (tell k cmd w)
  told none cmd w p = p
  told (some k) cmd w p = c.asks _ w refl p
