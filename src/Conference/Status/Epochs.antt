-- ===== src/Conference/Status/Epochs.antt =====
-- What the epochs of the custom status guarantee.
use mattermost_plugin_openta.Base.{
  ℕ, suc, ◌<◌, ◌≡◌, Bool, true, false, Option, List, [], ◌∷◌, arith, nat_eq, Bool-cases, inl, inr,
}
use mattermost_plugin_openta.Conference.Status.{
  CustomStatus, Request, put_meeting, Status, new_status, read_prior_status, write_prior_status,
  set_status, on_fetched, clear_status, has, drop_epoch, Input, sets, clears, fetched, passes, step,
  run,
}

-- How often the meeting's status was put, and how often it was taken back.
abbrev pub meetings : List Request → ℕ
meetings [] = 0
meetings (put_meeting t ∷ qs) = suc (meetings qs)
meetings (_ ∷ qs) = meetings qs

-- Every request under way was made before this epoch.
abbrev Before : ℕ → List ℕ → Type 0
Before e [] = Unit
Before e (d ∷ ds) = (d < e) × Before e ds

-- Every request under way is of an epoch so far, and without a status of ours of an earlier one.
record Inv (s : Status) : Type 0 where
  below : Before (suc s.epoch) s.fetching
  unset_below : s.status_set ≡ false → Before s.epoch s.fetching

Before-suc : (e : ℕ) (ds : List ℕ) → Before e ds → Before (suc e) ds
Before-suc e [] b = tt
Before-suc e (d ∷ ds) b = (omega (arith, b.0), Before-suc e ds b.1)

Before-drop_epoch : (e k : ℕ) (ds : List ℕ) → Before e ds → Before e (drop_epoch k ds)
Before-drop_epoch e k [] b = tt
Before-drop_epoch e k (d ∷ ds) b = elim (Bool-cases (nat_eq d k)) [
  | inl hit ↦ rw hit b.1
  | inr miss ↦ rw miss (b.0, Before-drop_epoch e k ds b.1)
]

Before-has : (e k : ℕ) (ds : List ℕ) → Before e ds → has k ds ≡ true → k < e
Before-has e k [] b h = cc
Before-has e k (d ∷ ds) b h = ground (arith, b.0, Before-has e k ds b.1)

-- Nothing of ours is set, and this many statuses were put.
record IsCleared (n : ℕ) (s : Status) : Type 0 where
  unset : s.status_set ≡ false
  before : Before s.epoch s.fetching
  put : meetings s.log ≡ n

clear-IsCleared : (s : Status) → Inv s → IsCleared (meetings s.log) (clear_status s)
unfolding clear_status write_prior_status read_prior_status
clear-IsCleared s v = elim (Bool-cases s.status_set) [
  | inl own ↦ ground (arith, v.below)
  | inr unset ↦ ground (arith, v.unset_below unset)
]

-- A request that was under way is of an earlier epoch, and puts nothing.
fetched-IsCleared :
    (n e : ℕ) (prior : Option CustomStatus) (s : Status)
    → IsCleared n s
    → IsCleared n (step (fetched e prior) s)
unfolding step on_fetched
fetched-IsCleared n e prior s v = elim (Bool-cases (has e s.fetching)) [
  | inl way ↦ ground (
    arith,
    way,
    Before-has s.epoch e s.fetching v.before way,
    Before-drop_epoch s.epoch e s.fetching v.before,
  )
  | inr none_such ↦ ground arith
]

abbrev pub is_set_call : Input → Bool
is_set_call sets = true
is_set_call _ = false

abbrev pub NoSets : List Input → Type 0
NoSets [] = Unit
NoSets (i ∷ is) = (is_set_call i ≡ false) × NoSets is

step-IsCleared :
    (n : ℕ) (i : Input) (s : Status)
    → is_set_call i ≡ false
    → IsCleared n s
    → IsCleared n (step i s)
step-IsCleared n sets s q v = cc
step-IsCleared n clears s q v = unfold step in (unfold clear_status in (simp v.unset v))
step-IsCleared n (fetched e prior) s q v = fetched-IsCleared n e prior s v
step-IsCleared n (passes time) s q v =
    unfold step in (record { unset = v.unset; before = v.before; put = v.put })

run-IsCleared :
    (n : ℕ) (is : List Input) (s : Status) → NoSets is → IsCleared n s → IsCleared n (run is s)
unfolding run
run-IsCleared n [] s q v = v
run-IsCleared n (i ∷ is) s q v = run-IsCleared n is (step i s) q.1 (step-IsCleared n i s q.0 v)

fetched-Inv :
    (e : ℕ) (prior : Option CustomStatus) (s : Status) → Inv s → Inv (step (fetched e prior) s)
unfolding step on_fetched write_prior_status
fetched-Inv e prior s v = ground (
  arith,
  Before-drop_epoch (suc s.epoch) e s.fetching v.below,
  v.unset_below,
  Before-drop_epoch s.epoch e s.fetching,
)

step-Inv : (i : Input) (s : Status) → Inv s → Inv (step i s)
step-Inv sets s v =
    unfold step in
    (unfold set_status in
      (record {
        below = (omega arith, Before-suc (suc s.epoch) s.fetching v.below);
        unset_below = λ e. cc;
      }))
step-Inv clears s v =
    unfold step in
    (let c = clear-IsCleared s v in
      record { below = Before-suc _ _ c.before; unset_below = λ e. c.before })
step-Inv (fetched e prior) s v = fetched-Inv e prior s v
step-Inv (passes time) s v =
    unfold step in (record { below = v.below; unset_below = v.unset_below })

run-Inv : (is : List Input) (s : Status) → Inv s → Inv (run is s)
unfolding run
run-Inv [] s v = v
run-Inv (i ∷ is) s v = run-Inv is (step i s) (step-Inv i s v)

new-Inv : (usable : Bool) (stored : Option CustomStatus) → Inv (new_status usable stored)
unfolding new_status
new-Inv usable stored = record { below = tt; unset_below = λ e. tt }

-- After a clear, in whatever state it comes, the meeting's status is not put again before the next
-- set, also if a set's request for the current status was under way and its answer comes later.
pub meetings-run-clear :
    (usable : Bool) (stored : Option CustomStatus) (is js : List Input)
    → NoSets js
    → meetings (run js (clear_status (run is (new_status usable stored)))).log
      ≡ meetings (run is (new_status usable stored)).log
meetings-run-clear usable stored is js q =
    let s = run is (new_status usable stored) in
    (run-IsCleared (meetings s.log) js (clear_status s) q
      (clear-IsCleared s (run-Inv is _ (new-Inv usable stored)))).put
