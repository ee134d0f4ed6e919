-- ===== src/Controller/Local/Late.antt =====
-- A participant's tracks when a new one arrives before the old one's subscription ends.
use mattermost_plugin_openta.Base.{
  String, ◌≡◌, refl, true, false, none, some, List, ◌∷◌, ◌==◌, contains, remove, contains-remove,
  eq_iff, truthy, arith, ◌∙◌, ap,
}
use mattermost_plugin_openta.Store.Action.{TrackKind, track_subscribed, track_unsubscribed}
use mattermost_plugin_openta.Store.Tracks.Laws.{IsValid, track}
use mattermost_plugin_openta.Controller.State.{Controller, dispatch}
use mattermost_plugin_openta.Controller.Events.{on_track_subscribed, on_track_unsubscribed}
use mattermost_plugin_openta.Controller.Local.Tiles.{
  dispatch-track, dispatch-IsValid, unsubscribed_here, kept_registry,
}

subscribed_to :
    (id : String) (kind : TrackKind) (t : String) (w : Controller)
    → truthy t ≡ true
    → on_track_subscribed id kind (some t) w
      ≡ dispatch (track_subscribed id kind t) (record w { registry = t ∷ remove t w.registry })
unfolding on_track_subscribed
subscribed_to id kind t w h = simp h refl

unsubscribed_from :
    (id : String) (kind : TrackKind) (t : String) (w : Controller)
    → truthy t ≡ true
    → on_track_unsubscribed id kind (some t) w
      ≡ dispatch (track_unsubscribed id kind) (record w { registry = remove t w.registry })
unfolding on_track_unsubscribed
unsubscribed_from id kind t w h = simp h refl

gone-track :
    (id : String) (kind : TrackKind) (w : Controller)
    → IsValid w.root.tracks
    → track (dispatch (track_unsubscribed id kind) w).root.tracks id kind ≡ none
gone-track id kind w v =
    dispatch-track (track_unsubscribed id kind) w id kind v
    ∙ unsubscribed_here id kind (track w.root.tracks)

still_held :
    (old new : String) (ids : List String)
    → (old == new) ≡ false
    → contains new (remove old (new ∷ ids)) ≡ true
still_held old new ids d = contains-remove new old (new ∷ ids) ∙ ground (arith, d, eq_iff new new)

-- Where a new track of a participant is subscribed before the subscription of the old one of its kind
-- ends, the slice has no track of that kind afterwards, though the registry still holds the new one.
pub late-unsubscribed :
    (id : String) (kind : TrackKind) (old new : String) (w : Controller)
    → IsValid w.root.tracks
    → truthy old ≡ true
    → truthy new ≡ true
    → (old == new) ≡ false
    → (track
          (on_track_unsubscribed id kind
            (some old)
            (on_track_subscribed id kind (some new) w)).root.tracks
          id
          kind
        ≡ none)
      × (contains new
            (on_track_unsubscribed id kind
              (some old)
              (on_track_subscribed id kind (some new) w)).registry
          ≡ true)
late-unsubscribed id kind old new w v o n d =
    rw (subscribed_to id kind new w n, unsubscribed_from id kind old _ o)
      (
        gone-track id kind _ (dispatch-IsValid (track_subscribed id kind new) _ n v),
        ap (contains new) (
              kept_registry (track_unsubscribed id kind) _
              ∙ ap (remove old) (kept_registry (track_subscribed id kind new) _))
            ∙ still_held old new (remove new w.registry) d,
      )
