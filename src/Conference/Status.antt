-- ===== src/Conference/Status.antt =====
-- The custom status of the user during a meeting (webapp/src/conference/status.ts): the module state,
-- `setOpenTalkStatus` with its request for the current status, and `clearOpenTalkStatus`.
pub mod Epochs
pub mod Prior
use mattermost_plugin_openta.Base.{
  ℕ, suc, String, Bool, true, false, ◌+◌, Option, none, some, List, [], ◌∷◌, nat_eq, option_eq,
  truthy_option, if◌then◌else◌,
}

pub record CustomStatus : Type 0 where
  pub emoji : Option String
  pub text : Option String
  pub duration : Option String
  pub expires_at : Option String

pub data Request : Type 0 where
  put_meeting : (expires_at : ℕ) → Request
  put_prior : CustomStatus → Request
  delete_status : Request

-- The stored status stands for its JSON text under the one key of `localStorage`.
pub record Status : Type 0 where
  pub epoch : ℕ
  pub status_set : Bool
  pub storage_usable : Bool
  pub stored : Option CustomStatus
  -- the epochs of the requests for the current status that are under way
  pub fetching : List ℕ
  -- the time in milliseconds
  pub now : ℕ
  -- newest first
  pub log : List Request

unfoldable pub new_status : Bool → Option CustomStatus → Status
new_status usable stored = record {
  epoch = 0;
  status_set = false;
  storage_usable = usable;
  stored = stored;
  fetching = [];
  now = 0;
  log = [];
}

abbrev pub meeting_emoji : String
meeting_emoji = "phone"

abbrev four_hours : ℕ → ℕ
four_hours now = now + 14400000

unfoldable pub read_prior_status : Status → Option CustomStatus
read_prior_status s = if s.storage_usable then s.stored else none

unfoldable pub write_prior_status : Option CustomStatus → Status → Status
write_prior_status p s = if s.storage_usable then record s { stored = p } else s

abbrev request : Request → Status → Status
request q s = record s { log = q ∷ s.log }

-- `setOpenTalkStatus()`, up to the `await` of the current status.
unfoldable pub set_status : Status → Status
set_status s = record s {
  epoch = suc s.epoch;
  status_set = true;
  fetching = suc s.epoch ∷ s.fetching;
}

-- A prior status is kept unless it is this plugin's own.
abbrev keep_prior : Option CustomStatus → Status → Status
keep_prior none s = s
keep_prior (some p) s =
    if option_eq p.emoji (some meeting_emoji) then s else write_prior_status (some p) s

-- The request of this epoch has settled; `none` is also a failed one.
unfoldable pub on_fetched : ℕ → Option CustomStatus → Status → Status
unfolding write_prior_status
on_fetched epoch prior s =
    if nat_eq epoch s.epoch
    then request (put_meeting (four_hours s.now)) (keep_prior prior s)
    else s

abbrev restore : Option CustomStatus → Status → Status
restore none s = request delete_status s
restore (some p) s =
    if truthy_option p.emoji then request (put_prior p) s else request delete_status s

-- `clearOpenTalkStatus()`
unfoldable pub clear_status : Status → Status
unfolding write_prior_status
clear_status s =
    let q = record s { status_set = false; epoch = suc s.epoch } in
    if s.status_set then restore (read_prior_status s) (write_prior_status none q) else s

abbrev pub has : ℕ → List ℕ → Bool
has e [] = false
has e (d ∷ ds) = if nat_eq d e then true else has e ds

abbrev pub drop_epoch : ℕ → List ℕ → List ℕ
drop_epoch e [] = []
drop_epoch e (d ∷ ds) = if nat_eq d e then ds else d ∷ drop_epoch e ds

pub data Input : Type 0 where
  sets clears : Input
  fetched : (epoch : ℕ) → Option CustomStatus → Input
  passes : (time : ℕ) → Input

-- A request settles once.
unfoldable pub step : Input → Status → Status
step sets s = set_status s
step clears s = clear_status s
step (fetched e prior) s =
    if has e s.fetching
    then on_fetched e prior (record s { fetching = drop_epoch e s.fetching })
    else s
step (passes time) s = record s { now = s.now + time }

unfoldable pub run : List Input → Status → Status
run [] s = s
run (i ∷ is) s = run is (step i s)
