-- ===== src/Plugin/Start/Outcome.antt =====
-- What the user sees of an attempt to start a meeting, by the answer of the server.
use mattermost_plugin_openta.Base.{
  String, ◌≡◌, refl, ◌||◌, Option, none, some, nat_eq, truthy, if◌then◌else◌, Bool-cases,
  Option-cases, inl, inr,
}
use mattermost_plugin_openta.Signaling.Value.{get, text}
use mattermost_plugin_openta.Controller.State.{Controller, notice_error}
use mattermost_plugin_openta.Controller.Join.{start_conference_connection}
use mattermost_plugin_openta.Plugin.Rest.{
  Answer, refused, answered, unreadable, create_meeting, is_ok,
}
use mattermost_plugin_openta.Plugin.Start.{meeting_created, create_failed_text}

-- The three outcomes.
pub data Outcome : Type 0 where
  -- the host application posts the meeting
  is_created : Outcome
  -- there is a meeting already, and its room is joined
  joins : (room_id : String) → Outcome
  tells : Outcome

abbrev room_or_tells : Option String → Outcome
room_or_tells none = tells
room_or_tells (some room_id) = if truthy room_id then joins room_id else tells

-- By the status: a conflict whose body has a room joins it, another success that can be read creates,
-- and everything else is told.
abbrev pub outcome : Answer → Outcome
outcome (refused message) = tells
outcome (answered status body json) =
    if nat_eq status 409
    then room_or_tells (text (get "room_id" json))
    else if is_ok status
    then is_created
    else tells
outcome (unreadable status body message) = tells

abbrev pub After :
    Outcome → (channel_id display_name : String) → (before after : Controller) → Type 0
After is_created channel_id display_name w q = q ≡ w
After (joins room_id) channel_id display_name w q =
    q
    ≡ start_conference_connection
        (record { room_id = room_id; channel_id = channel_id; display_name = display_name }) w
After tells channel_id display_name w q =
    (message : String) × (q ≡ notice_error (create_failed_text w message) w)

-- Whatever the server answers, or if it does not, starting a meeting ends in one of three ways by the
-- answer's status: nothing more to do after a success that can be read; joining the room that a conflict
-- names; or exactly one error notice, and no other change.
pub created-After :
    (channel_id display_name : String) (a : Answer) (w : Controller)
    → After (outcome a) channel_id display_name w (meeting_created channel_id display_name a w)
unfolding meeting_created create_meeting
created-After c d (refused message) w = (message, refl)
created-After c d (unreadable status body message) w =
    elim (Bool-cases (nat_eq status 409 || is_ok status)) [
      | inl read ↦ simp read (message, refl)
      | inr other ↦ simp other (_, refl)
    ]
created-After c d (answered status body json) w = elim (Bool-cases (nat_eq status 409)) [
  | inl conflict ↦ elim (Option-cases (text (get "room_id" json))) [
    | inl nowhere ↦ simp (conflict, nowhere) (_, refl)
    | inr (room, e) ↦ elim (Bool-cases (truthy room)) [
      | inl named ↦ simp (conflict, e, named) refl
      | inr empty ↦ simp (conflict, e, empty) (_, refl)
    ]
  ]
  | inr other ↦ elim (Bool-cases (is_ok status)) [
    | inl fine ↦ simp (other, fine) refl
    | inr bad ↦ simp (other, bad) (_, refl)
  ]
]
