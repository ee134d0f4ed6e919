-- ===== src/Tests/Conference.antt =====
-- The custom status on small inputs.
use mattermost_plugin_openta.Base.{◌≡◌, refl, true, none, some, [], ◌∷◌}
use mattermost_plugin_openta.Conference.Status.{
  CustomStatus, put_meeting, put_prior, new_status, set_status, on_fetched, clear_status, sets,
  clears, fetched, run,
}
use mattermost_plugin_openta.Conference.Status.Epochs.{meetings, meetings-run-clear}
use mattermost_plugin_openta.Conference.Status.Prior.{clear-fetched-set}

abbrev away : CustomStatus
away = record { emoji = some "palm_tree"; text = some "away"; duration = none; expires_at = none }

-- The answer to the first set's request comes after the clear.
meetings-run-clear_example :
    meetings
      (run
        (fetched 1 (some away) ∷ clears ∷ [])
        (clear_status (run (sets ∷ []) (new_status true none)))).log
    ≡ meetings (run (sets ∷ []) (new_status true none)).log
meetings-run-clear_example =
    meetings-run-clear true none (sets ∷ []) (fetched 1 (some away) ∷ clears ∷ [])
      (refl, (refl, tt))

clear-fetched-set_example :
    ((clear_status (on_fetched 1 (some away) (set_status (new_status true none)))).log
      ≡ put_prior away ∷ put_meeting 14400000 ∷ [])
    × ((clear_status (on_fetched 1 (some away) (set_status (new_status true none)))).stored ≡ none)
unfolding new_status
clear-fetched-set_example = clear-fetched-set (new_status true none) away refl refl refl
