-- ===== src/Controller/Teardown.antt =====
-- What a teardown leaves behind, and what events of a superseded client do.
use mattermost_plugin_openta.Base.{
  ℕ, ◌≡◌, refl, Bool, true, false, Option, none, some, List, [], ◌++◌, subst, sym, if◌then◌else◌,
  String, is_some, ◌||◌,
}
use mattermost_plugin_openta.Store.Root.{RootState, root_reducer}
use mattermost_plugin_openta.Store.Session.{SessionState, session_reducer}
use mattermost_plugin_openta.Store.Session
use mattermost_plugin_openta.Store.Participants.{participants_reducer}
use mattermost_plugin_openta.Store.Participants
use mattermost_plugin_openta.Store.Tracks.{tracks_reducer}
use mattermost_plugin_openta.Store.Tracks
use mattermost_plugin_openta.Store.Calls.{incoming_calls_reducer, active_meetings_reducer}
use mattermost_plugin_openta.Store.Notice.{notice_reducer, oauth_reducer}
use mattermost_plugin_openta.Controller.State.{
  Controller, Continuation, Teardown, dispatch, tear_down, tear_down_with, stop_media, wait_for,
  teardown_actions, dispatch_all,
}
use mattermost_plugin_openta.Controller.Events.{
  on_closed, on_error, on_livekit_disconnected, on_livekit_failed,
}

-- The store after a teardown: the session forgets everything but the running rejoin attempt, and
-- no participant and no track is left.
pub record IsIdle (old new : RootState) : Type 0 where
  pub session :
      new.session ≡ record Session.initial { reconnect_attempt = old.session.reconnect_attempt }
  pub participants : new.participants ≡ Participants.initial
  pub tracks : new.tracks ≡ Tracks.initial
  pub others_incoming : new.incoming_calls ≡ old.incoming_calls
  pub others_meetings : new.active_meetings ≡ old.active_meetings
  pub others_notice : new.notice ≡ old.notice
  pub others_oauth : new.oauth ≡ old.oauth

dispatch_all-IsIdle : (w : Controller) → IsIdle w.root (dispatch_all teardown_actions w).root
unfolding dispatch root_reducer session_reducer participants_reducer tracks_reducer notice_reducer
    oauth_reducer incoming_calls_reducer active_meetings_reducer
dispatch_all-IsIdle w = record {
  session = refl;
  participants = refl;
  tracks = refl;
  others_incoming = refl;
  others_meetings = refl;
  others_notice = refl;
  others_oauth = refl;
}

-- What a teardown does when none is running.
pub record TornDown (ks : List Continuation) (w q : Controller) : Type 0 where
  pub store : IsIdle w.root q.root
  pub no_client : q.client ≡ none
  pub no_livekit : q.livekit ≡ none
  pub no_heartbeat : q.heartbeat ≡ none
  pub no_tracks : q.registry ≡ []
  -- the client and the LiveKit room are handed to the part that is waited for, and
  pub handed : q.tearing_down ≡ (
      if is_some w.livekit || is_some w.client
      then some (record { livekit = w.livekit; client = w.client; waiting = ks })
      else none)
  -- without either the callers can go on
  pub goes_on : q.ready ≡ (if is_some w.livekit || is_some w.client then w.ready else w.ready ++ ks)
  pub same_rejoin : q.rejoin ≡ w.rejoin

-- A teardown that finds none running empties the conference at once, before anything is waited for;
-- one that finds another running changes nothing, and what follows it is ready to go on.
abbrev pub TearsDown : List Continuation → Controller → Option Teardown → Controller → Type 0
TearsDown ks w none q = TornDown ks w q
TearsDown ks w (some t) q = q ≡ record w { ready = w.ready ++ ks }

-- What a teardown leaves when it waits for these two.
wait_for-TornDown :
    (lk c : Option ℕ) (ks : List Continuation) (w q : Controller)
    → w.livekit ≡ lk
    → w.client ≡ c
    → IsIdle w.root q.root
    → q.client ≡ none
    → q.livekit ≡ none
    → q.heartbeat ≡ none
    → q.registry ≡ []
    → q.rejoin ≡ w.rejoin
    → q.ready ≡ w.ready
    → TornDown ks w (wait_for lk c ks q)
unfolding wait_for
wait_for-TornDown (some lk) c ks w q l k idle a b d e f g = record {
  store = idle;
  no_client = a;
  no_livekit = b;
  no_heartbeat = d;
  no_tracks = e;
  handed = rw (l, k) refl;
  goes_on = rw l g;
  same_rejoin = f;
}
wait_for-TornDown none (some c) ks w q l k idle a b d e f g = record {
  store = idle;
  no_client = a;
  no_livekit = b;
  no_heartbeat = d;
  no_tracks = e;
  handed = rw (l, k) refl;
  goes_on = rw (l, k) g;
  same_rejoin = f;
}
wait_for-TornDown none none ks w q l k idle a b d e f g = record {
  store = idle;
  no_client = a;
  no_livekit = b;
  no_heartbeat = d;
  no_tracks = e;
  handed = rw (l, k) refl;
  goes_on = rw (l, k, g) refl;
  same_rejoin = f;
}

-- A known test chooses.
if-true : (b : Bool) (x y : Controller) → b ≡ true → (if b then x else y) ≡ x
if-true true x y e = refl
if-true false x y e = cc

tear_down_with-TearsDown :
    (o : Option Teardown) (ks : List Continuation) (w : Controller)
    → w.has_store ≡ true
    → TearsDown ks w o (tear_down_with o ks w)
unfolding dispatch
tear_down_with-TearsDown (some t) ks w h = refl
tear_down_with-TearsDown none ks w h =
    subst (λ q. TornDown ks w (wait_for w.livekit w.client ks q))
      (sym (if-true w.has_store (dispatch_all teardown_actions (stop_media w)) (stop_media w) h))
      (wait_for-TornDown w.livekit w.client ks w (dispatch_all teardown_actions (stop_media w)) refl
        refl (dispatch_all-IsIdle (stop_media w)) refl refl refl refl refl refl)

-- Once a store is known, `tearDownActiveConference` leaves the session idle but for the number of
-- the rejoin attempt, no participants and no tracks in the store, and forgets client, LiveKit
-- room, heartbeat and registered tracks before it waits for anything; the pending rejoin stays.
-- While another teardown runs it changes nothing, and its caller goes on at once.
pub tear_down-TearsDown :
    (ks : List Continuation) (w : Controller)
    → w.has_store ≡ true
    → TearsDown ks w w.tearing_down (tear_down ks w)
unfolding tear_down
tear_down-TearsDown ks w h = tear_down_with-TearsDown w.tearing_down ks w h

-- After a teardown that finds a store and no other teardown running, neither a `closed` nor an
-- `error` of any client, nor the end or the failure of any LiveKit room's connection changes
-- anything; so the `closed` that the client's own leave causes is ignored.
pub torn_down_inert :
    (ks : List Continuation) (w : Controller) (k lk : ℕ) (recoverable : Bool) (message : String)
    → w.has_store ≡ true
    → w.tearing_down ≡ none
    → let q = tear_down ks w in
      (on_closed k recoverable q ≡ q)
      × (on_error k message q ≡ q)
      × (on_livekit_disconnected lk q ≡ q)
      × (on_livekit_failed lk q ≡ q)
unfolding on_closed on_error on_livekit_disconnected on_livekit_failed
torn_down_inert ks w k lk recoverable message h e =
    let torn : TearsDown ks w none (tear_down ks w) =
      subst (λ o. TearsDown ks w o (tear_down ks w)) e (tear_down-TearsDown ks w h) in
    (rw torn.no_client, rw torn.no_client, rw torn.no_livekit, rw torn.no_livekit)
