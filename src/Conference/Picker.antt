-- ===== src/Conference/Picker.antt =====
-- The picker for a shared screen (webapp/src/conference/livekit/screen_picker.ts). The promises of
-- `pickScreenSource` and the subscribed callbacks have numbers.
pub mod Settling
use mattermost_plugin_openta.Base.{
  ℕ, suc, String, Bool, true, Option, none, some, List, [], ◌∷◌, nat_eq, is_some, if◌then◌else◌,
}

-- `DesktopSource`
pub record DesktopSource : Type 0 where
  pub id : String
  pub name : String
  pub thumbnail_url : String

-- What a callback is given.
pub record View : Type 0 where
  pub is_open : Bool
  pub sources : List DesktopSource

pub record Picker : Type 0 where
  -- `pendingResolver`, by the number of its promise
  pub pending : Option ℕ
  -- `pendingSources`
  pub sources : List DesktopSource
  -- each subscribed callback with what it was given last
  pub listeners : List (ℕ × View)
  -- the promises that have settled, newest first
  pub settled : List (ℕ × Option String)
  -- the next promise's number
  pub fresh : ℕ

abbrev pub new_picker : Picker
new_picker = record { pending = none; sources = []; listeners = []; settled = []; fresh = 0 }

abbrev pub view : Picker → View
view p = record { is_open = is_some p.pending; sources = p.sources }

abbrev pub tell : View → List (ℕ × View) → List (ℕ × View)
tell v [] = []
tell v ((n, old) ∷ ls) = (n, v) ∷ tell v ls

unfoldable pub notify : Picker → Picker
notify p = record p { listeners = tell (view p) p.listeners }

-- `listeners.delete(cb)`, and the callback's place in the set is its first.
abbrev pub drop : ℕ → List (ℕ × View) → List (ℕ × View)
drop n [] = []
drop n ((m, v) ∷ ls) = if nat_eq m n then drop n ls else (m, v) ∷ drop n ls

-- `subscribeScreenPicker`
unfoldable pub subscribe : ℕ → Picker → Picker
subscribe n p = record p { listeners = (n, view p) ∷ drop n p.listeners }

-- What `subscribeScreenPicker` returns.
unfoldable pub unsubscribe : ℕ → Picker → Picker
unsubscribe n p = record p { listeners = drop n p.listeners }

abbrev pub resolve_with : Option ℕ → Option String → Picker → Picker
resolve_with none id p = p
resolve_with (some r) id p =
    notify (record p { pending = none; sources = []; settled = (r, id) ∷ p.settled })

-- `resolveScreenPicker`; the id is `none` where the user cancels.
unfoldable pub resolve_screen_picker : Option String → Picker → Picker
resolve_screen_picker id p = resolve_with p.pending id p

-- `pickScreenSource`: a picker that is open is cancelled.
unfoldable pub pick_screen_source : List DesktopSource → Picker → Picker
pick_screen_source sources p =
    let q = resolve_screen_picker none p in
    notify (record q { pending = some q.fresh; sources = sources; fresh = suc q.fresh })

pub data PickerCall : Type 0 where
  picks : List DesktopSource → PickerCall
  resolves : Option String → PickerCall
  subscribes unsubscribes : ℕ → PickerCall

unfoldable pub step : PickerCall → Picker → Picker
step (picks sources) p = pick_screen_source sources p
step (resolves id) p = resolve_screen_picker id p
step (subscribes n) p = subscribe n p
step (unsubscribes n) p = unsubscribe n p

unfoldable pub run : List PickerCall → Picker → Picker
run [] p = p
run (c ∷ cs) p = run cs (step c p)
