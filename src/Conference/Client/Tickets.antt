-- ===== src/Conference/Client/Tickets.antt =====
-- How the server's answer to a join settles the ticket request of a room.
use mattermost_plugin_openta.Base.{
  Option, some, none, ℕ, ◌∙◌, String, ◌≡◌, refl, Bool, true, ◌∷◌, Bool-cases, inl, inr,
  if◌then◌else◌, ◌⊎◌, ◌==◌, eq_iff, truthy, ap, sym, false,
}
use mattermost_plugin_openta.Signaling.RoomState.{
  Room, ticket_failed, join_rejected, socket_opened, authenticating, connecting, idle,
}
use mattermost_plugin_openta.Signaling.Room.{step, ticket, no_ticket, on_ticket, on_ticket_failed}
use mattermost_plugin_openta.Plugin.Rest.{
  Answer, refused, answered, unreadable, is_ok, join_meeting, Failure, ok, failed,
}
use mattermost_plugin_openta.Signaling.Value.{
  text, Value, undefined, null, str, obj, Fields, get_field,
}
use mattermost_plugin_openta.Conference.Client.{get_ticket, ticket_of, or_empty}

-- The server's URL in an answer, empty where there is none.
abbrev pub HasUrl : Value → String → Type 0
HasUrl v url = (v ≡ str url) ⊎ ((v ≡ undefined) × (url ≡ ""))

-- An answer of success whose body has this ticket and this URL.
abbrev pub Grants : Answer → (url token : String) → Type 0
Grants (answered status body (obj fs)) url token =
    (is_ok status ≡ true)
    × (get_field "ticket" fs ≡ str token)
    × HasUrl (get_field "roomserver_url" fs) url
Grants _ url token = ⊥

-- A request that is refused, a body that is no JSON, a status that is none of success, and a body `null`.
abbrev pub Denies : Answer → Type 0
Denies (refused message) = Unit
Denies (unreadable status body message) = Unit
Denies (answered status body json) = (is_ok status ≡ false) ⊎ (json ≡ null)

-- The room opens a socket with this URL and this ticket, and waits for an event of it.
pub record Opens (url token : String) (r q : Room) : Type 0 where
  pub state : q.state ≡ connecting
  pub waiting : q.waiting ≡ true
  pub socket : q.log ≡ socket_opened url token ∷ r.log

-- The join is rejected, and the room can be asked again.
pub record Rejects (r q : Room) : Type 0 where
  pub state : q.state ≡ idle
  pub waiting : q.waiting ≡ r.waiting
  pub rejected : q.log ≡ join_rejected ticket_failed ∷ r.log
  pub pending : q.ticket_pending ≡ false

no_default : (url : String) → (if truthy url then url else "") ≡ url
no_default url = elim (Bool-cases (url == "")) [
  | inl empty ↦ rw empty (sym ((eq_iff url "").0 empty))
  | inr given ↦ rw given refl
]

ticket-Opens :
    (t token url : String) (r : Room)
    → r.state ≡ authenticating
    → Opens url t r (on_ticket "" t token url r)
unfolding on_ticket
ticket-Opens t token url r h = simp h (record {
  state = refl;
  waiting = refl;
  socket = ap (λ u. socket_opened u t ∷ r.log) (no_default url);
})

failed-Rejects : (r : Room) → r.state ≡ authenticating → Rejects r (on_ticket_failed r)
unfolding on_ticket_failed
failed-Rejects r h =
    simp h (record { state = refl; waiting = refl; rejected = refl; pending = refl })

socket_at :
    (t resumption u url token : String) (r : Room)
    → r.ticket_pending ≡ true
    → r.state ≡ authenticating
    → t ≡ token
    → u ≡ url
    → Opens url token r (step (ticket t resumption u) r)
unfolding step
socket_at t resumption u url token r p h same_token same_url =
    rw (same_token, same_url) (simp p (ticket-Opens token resumption url r h))

url_of : (v : Value) (url : String) → HasUrl v url → or_empty (text v) ≡ url
url_of v url (inl given) = ap (λ w. or_empty (text w)) given
url_of v url (inr (none_there, empty)) = ap (λ w. or_empty (text w)) none_there ∙ sym empty

granted :
    (url token : String) (fs : Fields) (r : Room)
    → r.ticket_pending ≡ true
    → r.state ≡ authenticating
    → get_field "ticket" fs ≡ str token
    → HasUrl (get_field "roomserver_url" fs) url
    → Opens url token r (step (ticket_of (ok (obj fs))) r)
granted url token fs r p h t u =
    socket_at _ _ _ url token r p h (ap (λ w. or_empty (text w)) t)
      (url_of (get_field "roomserver_url" fs) url u)

denied :
    (r : Room) → r.ticket_pending ≡ true → r.state ≡ authenticating → Rejects r (step no_ticket r)
unfolding step
denied r p h = simp p (failed-Rejects r h)

null-denied :
    (b : Bool) (e : Failure) (r : Room)
    → r.ticket_pending ≡ true
    → r.state ≡ authenticating
    → Rejects r (step (ticket_of (if b then ok null else failed e)) r)
null-denied true e r p h = denied r p h
null-denied false e r p h = denied r p h

unreadable-denied :
    (b : Bool) (e f : Failure) (r : Room)
    → r.ticket_pending ≡ true
    → r.state ≡ authenticating
    → Rejects r (step (ticket_of (if b then failed e else failed f)) r)
unreadable-denied true e f r p h = denied r p h
unreadable-denied false e f r p h = denied r p h

granted_by :
    (status : ℕ) (body : String) (json : Value) (url token : String) (r : Room)
    → r.ticket_pending ≡ true
    → r.state ≡ authenticating
    → Grants (answered status body json) url token
    → Opens url token r (step (get_ticket (answered status body json)) r)
unfolding get_ticket join_meeting
granted_by status body (obj fs) url token r p h (fine, t, u) =
    simp fine (granted url token fs r p h t u)
granted_by status body _ url token r p h g = absurd g

denied_by :
    (status : ℕ) (body : String) (json : Value) (r : Room)
    → r.ticket_pending ≡ true
    → r.state ≡ authenticating
    → (is_ok status ≡ false) ⊎ (json ≡ null)
    → Rejects r (step (get_ticket (answered status body json)) r)
unfolding get_ticket join_meeting
denied_by status body json r p h (inl bad) = simp bad (denied r p h)
denied_by status body json r p h (inr nothing) = rw nothing (null-denied (is_ok status) _ r p h)

-- What an answer says: a URL and a ticket, or no.
abbrev pub Says : Answer → Option (String × String) → Type 0
Says a (some (url, token)) = Grants a url token
Says a none = Denies a

-- What the room makes of that.
abbrev pub Outcome : Option (String × String) → Room → Room → Type 0
Outcome (some (url, token)) r q = Opens url token r q
Outcome none r q = Rejects r q

-- While a room asks for its ticket, an answer of success whose body has a ticket makes it open a socket
-- with that ticket and the URL of the body, empty where it has none, and wait; a refused request, a
-- status of no success, a body that is no JSON and the body `null` reject the join once and leave the
-- room idle, so that it can be asked again.
pub answer-settles :
    (a : Answer) (o : Option (String × String)) (r : Room)
    → r.ticket_pending ≡ true
    → r.state ≡ authenticating
    → Says a o
    → Outcome o r (step (get_ticket a) r)
unfolding get_ticket join_meeting
answer-settles (refused message) (some (url, token)) r p h g = absurd g
answer-settles (refused message) none r p h g = denied r p h
answer-settles (unreadable status body message) (some (url, token)) r p h g = absurd g
answer-settles (unreadable status body message) none r p h g =
    unreadable-denied (is_ok status) _ _ r p h
answer-settles (answered status body json) (some (url, token)) r p h g =
    granted_by status body json url token r p h g
answer-settles (answered status body json) none r p h g = denied_by status body json r p h g
