-- ===== src/Meeting/Handlers.antt =====
-- What the controller's listeners do to the list of participants and its count.
use mattermost_plugin_openta.Base.{
  ℕ, String, ◌≡◌, refl, sym, subst, Bool, true, false, Option, none, some, List, [], ◌∷◌, ◌++◌,
  arith, is_some, if◌then◌else◌,
}
use mattermost_plugin_openta.Store.Action.{
  Action, Role, participant_added, participant_removed, participants_changed,
  participant_role_changed,
}
use mattermost_plugin_openta.Store.Participants.Invariant.{IsProper}
use mattermost_plugin_openta.Store.Participants.Listing.{order_step}
use mattermost_plugin_openta.Signaling.RoomState.{Participant, Credentials}
use mattermost_plugin_openta.Signaling.Messages.{has_id, without_id, set_roles}
use mattermost_plugin_openta.Controller.State.{Controller, dispatch}
use mattermost_plugin_openta.Controller.Events.{
  count, key, to_participant_info, on_livekit_credentials, bring_up_livekit, on_participant_joined,
  on_participant_left, on_force_muted, on_role_updated, mute_now,
}
use mattermost_plugin_openta.Meeting.Listed.{
  Lists, count_step, ids, write-Lists, act-Lists, has_id-contains, ids-without_id,
  without_id-AllNamed, append-AllNamed, ids-append, ids-set_roles, count-set_roles,
  set_roles-AllNamed,
}

pub joined-Lists :
    (p : Participant) (ps : List Participant) (w : Controller)
    → is_some p.id ≡ true
    → Lists ps (count ps) w
    → (let qs = if has_id p.id ps then ps else ps ++ p ∷ [] in
        Lists qs (count qs) (on_participant_joined p (count qs) w))
unfolding on_participant_joined to_participant_info
joined-Lists p ps w h v =
    let qs = if has_id p.id ps then ps else ps ++ p ∷ [] in
    let counted =
      write-Lists ps ps (count ps) (participants_changed (count qs)) w tt v.named refl v in
    write-Lists ps qs (count qs) (participant_added (to_participant_info p)) _ tt
      (ground (arith, append-AllNamed ps p v.named h))
      (ground (arith, has_id-contains p.id ps h v.named, ids-append ps p)) counted

pub left-Lists :
    (id : Option String) (ps : List Participant) (w : Controller)
    → is_some id ≡ true
    → Lists ps (count ps) w
    → (let qs = without_id id ps in Lists qs (count qs) (on_participant_left id (count qs) w))
unfolding on_participant_left
left-Lists id ps w h v =
    let qs = without_id id ps in
    let counted =
      write-Lists ps ps (count ps) (participants_changed (count qs)) w tt v.named refl v in
    write-Lists ps qs (count qs) (participant_removed (key id)) _ tt
      (without_id-AllNamed id ps v.named) (sym (ids-without_id id ps h v.named)) counted

-- An action that is no matter to list and count.
pub plain-Lists :
    (ps : List Participant) (n : ℕ) (a : Action) (w : Controller)
    → (count_step n a ≡ n) × (order_step (ids ps) a ≡ ids ps) × IsProper a
    → Lists ps n w
    → Lists ps n (dispatch a w)
plain-Lists ps n a w (c, o, p) v =
    subst (λ m. Lists ps m (dispatch a w)) c (write-Lists ps ps n a w p v.named o v)

pub if-Lists :
    {ps : List Participant} {n : ℕ} (b : Bool) (x y : Controller)
    → Lists ps n x
    → Lists ps n y
    → Lists ps n (if b then x else y)
if-Lists true x y v u = v
if-Lists false x y v u = u

pub role-Lists :
    (id role : Option String) (r : Role) (ps : List Participant) (w : Controller)
    → Lists ps (count ps) w
    → (let qs = set_roles id role ps in Lists qs (count qs) (on_role_updated id r w))
unfolding on_role_updated
role-Lists id role r ps w v =
    let qs = set_roles id role ps in
    let changed : Lists qs (count qs) (dispatch (participant_role_changed (key id) r) w) =
      rw (count-set_roles id role ps) (
        write-Lists ps qs (count ps) (participant_role_changed (key id) r) w tt
          (set_roles-AllNamed id role ps v.named) (sym (ids-set_roles id role ps)) v) in
    if-Lists _ _ _
      (write-Lists qs qs (count qs) (Action.set_is_host _) _ tt changed.named refl changed) changed

pub credentials-Lists :
    (k : ℕ) (c : Credentials) (ps : List Participant) (n : ℕ) (w : Controller)
    → Lists ps n w
    → Lists ps n (on_livekit_credentials k c w)
unfolding on_livekit_credentials bring_up_livekit
credentials-Lists k c ps n w v = ground arith

pub muted-Lists :
    (ps : List Participant) (n : ℕ) (w : Controller) → Lists ps n w → Lists ps n (on_force_muted w)
unfolding on_force_muted
muted-Lists ps n w v = go w.livekit
  where
    go : (o : Option ℕ) → Lists ps n (mute_now o w)
    go none = v
    go (some lk) =
        write-Lists ps ps n (Action.set_mic_enabled false) _ tt v.named refl (act-Lists ps n _ w v)
