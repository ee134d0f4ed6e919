-- ===== src/Components/Ringing/Latest.antt =====
-- One window at most shows a call, and it is the latest.
use mattermost_plugin_openta.Base.{
  ℕ, String, ◌≡◌, refl, Bool, true, false, not, Option, none, some, List, [], ◌∷◌, ◌≤◌, ◌⊎◌, inl,
  inr, ltb, arith, Dict, ap, sym, ◌∙◌, Bool-cases, option_eq, if◌then◌else◌,
}
use mathlib.Core.Option.{none-ne-some}
use mattermost_plugin_openta.Store.Session.{is_true, idle}
use mattermost_plugin_openta.Store.Action.{IncomingCall}
use mattermost_plugin_openta.Store.Root.{RootState}
use mattermost_plugin_openta.Components.Ringing.{
  live_calls, later_of, latest, latest_call, is_idle, unless, elsewhere, shown_incoming,
  shown_switch,
}

-- A call is in a list.
abbrev Among : IncomingCall → List IncomingCall → Type 0
Among c [] = ⊥
Among c (d ∷ ds) = (d ≡ c) ⊎ Among c ds

-- No call of a list was received after this time.
abbrev AllBy : ℕ → List IncomingCall → Type 0
AllBy n [] = Unit
AllBy n (d ∷ ds) = (d.received_at ≤ n) × AllBy n ds

-- A call is one of these, and none of them was received after it.
abbrev IsLatest : IncomingCall → List IncomingCall → Type 0
IsLatest c cs = Among c cs × AllBy c.received_at cs

earlier :
    (c d : IncomingCall) → ltb c.received_at d.received_at ≡ true → c.received_at ≤ d.received_at
earlier c d h = ground arith

later :
    (c d : IncomingCall) → ltb c.received_at d.received_at ≡ false → d.received_at ≤ c.received_at
later c d h = ground arith

next-IsLatest :
    (b : Bool) (c d l : IncomingCall) (ds : List IncomingCall)
    → ltb c.received_at d.received_at ≡ b
    → IsLatest l ((if b then d else c) ∷ ds)
    → IsLatest l (c ∷ d ∷ ds)
next-IsLatest true c d l ds h (a, (n, r)) = (inr a, (omega (arith, earlier c d h, n), (n, r)))
next-IsLatest false c d l ds h (inl same, (n, r)) =
    (inl same, (n, (omega (arith, later c d h, n), r)))
next-IsLatest false c d l ds h (inr more, (n, r)) =
    (inr (inr more), (n, (omega (arith, later c d h, n), r)))

later_of-IsLatest : (c : IncomingCall) (ds : List IncomingCall) → IsLatest (later_of c ds) (c ∷ ds)
later_of-IsLatest c [] = (inl refl, (omega arith, tt))
later_of-IsLatest c (d ∷ ds) =
    next-IsLatest (ltb c.received_at d.received_at) c d
      (later_of (if ltb c.received_at d.received_at then d else c) ds) ds refl
      (later_of-IsLatest (if ltb c.received_at d.received_at then d else c) ds)

-- What stands in a window: nothing, or the latest of the calls.
abbrev ShowsLatest : Option IncomingCall → List IncomingCall → Type 0
ShowsLatest none cs = Unit
ShowsLatest (some c) cs = IsLatest c cs

latest-ShowsLatest : (cs : List IncomingCall) → ShowsLatest (latest cs) cs
latest-ShowsLatest [] = tt
latest-ShowsLatest (c ∷ cs) = later_of-IsLatest c cs

unless-ShowsLatest :
    (b : Bool) (o : Option IncomingCall) (cs : List IncomingCall)
    → ShowsLatest o cs
    → ShowsLatest (unless b o) cs
unless-ShowsLatest true o cs h = tt
unless-ShowsLatest false o cs h = h

elsewhere-ShowsLatest :
    (id : Option String) (o : Option IncomingCall) (cs : List IncomingCall)
    → ShowsLatest o cs
    → ShowsLatest (elsewhere id o) cs
elsewhere-ShowsLatest id none cs h = tt
elsewhere-ShowsLatest id (some c) cs h =
    unless-ShowsLatest (option_eq (some c.channel_id) id) (some c) cs h

-- A window is empty.
abbrev pub IsEmpty : Option IncomingCall → Type 0
IsEmpty o = o ≡ none

unless-IsEmpty :
    (b : Bool) (o q : Option IncomingCall) → IsEmpty (unless (not b) o) ⊎ IsEmpty (unless b q)
unless-IsEmpty true o q = inr refl
unless-IsEmpty false o q = inl refl

shown_latest :
    (s : RootState)
    → (IsEmpty (shown_incoming s) ⊎ IsEmpty (shown_switch s))
      × ShowsLatest (shown_incoming s) (live_calls s.incoming_calls.calls)
      × ShowsLatest (shown_switch s) (live_calls s.incoming_calls.calls)
unfolding shown_incoming shown_switch latest_call
shown_latest s =
    let cs = live_calls s.incoming_calls.calls in
    let idle = is_idle s.session.status in
    let shown = latest-ShowsLatest cs in
    (
      unless-IsEmpty idle (latest cs) (elsewhere s.session.channel_id (latest cs)),
      unless-ShowsLatest (not idle) (latest cs) cs shown,
      unless-ShowsLatest idle (elsewhere s.session.channel_id (latest cs)) cs
          (elsewhere-ShowsLatest s.session.channel_id (latest cs) cs shown),
    )

-- A call stands in the slice.
abbrev pub Has : IncomingCall → Dict IncomingCall → Type 0
Has c [] = ⊥
Has c ((id, d) ∷ ds) = (d ≡ c) ⊎ Has c ds

-- No call of the slice that is not dismissed was received after this time.
abbrev pub NoneLater : ℕ → Dict IncomingCall → Type 0
NoneLater n [] = Unit
NoneLater n ((id, d) ∷ ds) = (is_true d.dismissed ≡ false → d.received_at ≤ n) × NoneLater n ds

abbrev pub AllDismissed : Dict IncomingCall → Type 0
AllDismissed [] = Unit
AllDismissed ((id, d) ∷ ds) = (is_true d.dismissed ≡ true) × AllDismissed ds

-- What a window shows of the slice: nothing, or a call that is not dismissed, and the latest of those.
abbrev pub IsNewest : Option IncomingCall → Dict IncomingCall → Type 0
IsNewest none ds = Unit
IsNewest (some c) ds = Has c ds × (is_true c.dismissed ≡ false) × NoneLater c.received_at ds

Among-Has :
    (c : IncomingCall) (ds : Dict IncomingCall)
    → Among c (live_calls ds)
    → Has c ds × (is_true c.dismissed ≡ false)
Among-Has c [] a = absurd a
Among-Has c ((id, d) ∷ ds) a = elim (Bool-cases (is_true d.dismissed)) [
  | inl gone ↦ let (h, n) = Among-Has c ds (rw gone at a) in (inr h, n)
  | inr live ↦
      let b : (d ≡ c) ⊎ Among c (live_calls ds) = rw live at a in
      elim b [
        | inl same ↦ (inl same, ap (λ x. is_true x.dismissed) (sym same) ∙ live)
        | inr more ↦ let (h, n) = Among-Has c ds more in (inr h, n)
      ]
]

AllBy-NoneLater : (n : ℕ) (ds : Dict IncomingCall) → AllBy n (live_calls ds) → NoneLater n ds
AllBy-NoneLater n [] a = tt
AllBy-NoneLater n ((id, d) ∷ ds) a = elim (Bool-cases (is_true d.dismissed)) [
  | inl gone ↦ (λ live. cc, AllBy-NoneLater n ds (rw gone at a))
  | inr live ↦
      let b : (d.received_at ≤ n) × AllBy n (live_calls ds) = rw live at a in
      (λ h. b.0, AllBy-NoneLater n ds b.1)
]

ShowsLatest-IsNewest :
    (o : Option IncomingCall) (ds : Dict IncomingCall)
    → ShowsLatest o (live_calls ds)
    → IsNewest o ds
ShowsLatest-IsNewest none ds h = tt
ShowsLatest-IsNewest (some c) ds h =
    let (has, live) = Among-Has c ds h.0 in (has, live, AllBy-NoneLater c.received_at ds h.1)

latest-AllDismissed : (ds : Dict IncomingCall) → latest (live_calls ds) ≡ none → AllDismissed ds
latest-AllDismissed [] h = tt
latest-AllDismissed ((id, d) ∷ ds) h = elim (Bool-cases (is_true d.dismissed)) [
  | inl gone ↦ (gone, latest-AllDismissed ds (rw gone at h))
  | inr live ↦ absurd (none-ne-some _ (sym (rw live at h)))
]

idle-shown :
    (s : RootState)
    → s.session.status ≡ idle
    → shown_incoming s ≡ latest (live_calls s.incoming_calls.calls)
unfolding shown_incoming latest_call
idle-shown s h = rw h refl

-- At most one of the two windows shows a call, and what either shows is a call that is not dismissed,
-- with none of those received after it. Outside a session the window for incoming calls is empty only
-- where every call is dismissed.
pub windows-latest :
    (s : RootState)
    → (IsEmpty (shown_incoming s) ⊎ IsEmpty (shown_switch s))
      × IsNewest (shown_incoming s) s.incoming_calls.calls
      × IsNewest (shown_switch s) s.incoming_calls.calls
      × (s.session.status ≡ idle → IsEmpty (shown_incoming s) → AllDismissed s.incoming_calls.calls)
windows-latest s =
    let ds = s.incoming_calls.calls in
    let (one, inc, switch) = shown_latest s in
    (
      one,
      ShowsLatest-IsNewest (shown_incoming s) ds inc,
      ShowsLatest-IsNewest (shown_switch s) ds switch,
      λ still empty. latest-AllDismissed ds (sym (idle-shown s still) ∙ empty),
    )
