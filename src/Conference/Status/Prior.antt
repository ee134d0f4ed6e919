-- ===== src/Conference/Status/Prior.antt =====
-- How the user's own status comes back.
use mattermost_plugin_openta.Base.{
  ℕ, suc, ◌+◌, ◌≤◌, ◌≡◌, Bool, true, false, Option, none, some, List, [], ◌∷◌, arith, if◌then◌else◌,
  option_eq, truthy_option,
}
use mattermost_plugin_openta.Conference.Status.{
  CustomStatus, Request, put_meeting, put_prior, Status, new_status, meeting_emoji,
  read_prior_status, write_prior_status, set_status, on_fetched, clear_status, Input, sets, clears,
  fetched, passes, step, run,
}

-- A set whose request finds a status of the user's own, and the clear after it: the meeting's status is
-- put, then the user's status again, and nothing stays stored. The storage must be usable and the
-- status have an emoji other than the meeting's.
pub clear-fetched-set :
    (s : Status) (p : CustomStatus)
    → s.storage_usable ≡ true
    → truthy_option p.emoji ≡ true
    → option_eq p.emoji (some meeting_emoji) ≡ false
    → let q = clear_status (on_fetched (suc s.epoch) (some p) (set_status s)) in
      (q.log ≡ put_prior p ∷ put_meeting (s.now + 14400000) ∷ s.log) × (q.stored ≡ none)
unfolding clear_status on_fetched set_status read_prior_status write_prior_status
clear-fetched-set s p u e m = ground arith

-- How often a status was taken back.
abbrev pub undos : List Request → ℕ
undos [] = 0
undos (put_meeting t ∷ qs) = undos qs
undos (_ ∷ qs) = suc (undos qs)

abbrev pub set_calls : List Input → ℕ
set_calls [] = 0
set_calls (sets ∷ is) = suc (set_calls is)
set_calls (_ ∷ is) = set_calls is

abbrev owed : Status → ℕ
owed s = undos s.log + (if s.status_set then 1 else 0)

clear-owed : (s : Status) → owed (clear_status s) ≤ owed s
unfolding clear_status write_prior_status read_prior_status
clear-owed s = ground arith

fetched-owed : (e : ℕ) (p : Option CustomStatus) (s : Status) → owed (step (fetched e p) s) ≤ owed s
unfolding step on_fetched write_prior_status
fetched-owed e p s = ground arith

step-owed : (i : Input) (s : Status) → owed (step i s) ≤ set_calls (i ∷ []) + owed s
step-owed sets s = unfold step in (unfold set_status in (ground arith))
step-owed clears s = unfold step in (omega (arith, clear-owed s))
step-owed (fetched e p) s = omega (arith, fetched-owed e p s)
step-owed (passes time) s = unfold step in (omega arith)

run-owed : (is : List Input) (s : Status) → owed (run is s) ≤ set_calls is + owed s
unfolding run
run-owed [] s = omega arith
run-owed (i ∷ is) s = ground (arith, run-owed is (step i s), step-owed i s)

-- From the start, the requests that take a status back, a delete or a put of the prior one, are at
-- most as many as the calls that set one.
pub undos-run :
    (usable : Bool) (stored : Option CustomStatus) (is : List Input)
    → undos (run is (new_status usable stored)).log ≤ set_calls is
undos-run usable stored is = start (run-owed is (new_status usable stored))
  where
    start :
        owed (run is (new_status usable stored)) ≤ set_calls is + owed (new_status usable stored)
        → undos (run is (new_status usable stored)).log ≤ set_calls is
    start h = unfold new_status in (ground (arith, h))
