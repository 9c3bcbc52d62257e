-- ===== src/Status.antt =====
-- The flight status and the navigators: `StatusController` (chicken/status_controller.cpp) and the
-- base class `INavigator` (chicken/navigator/i_navigator.cpp).
--
-- Navigators are objects that several entries of the table may share (chicken.cpp enters the
-- attitude navigator twice), so they live in a store: `fleet id` is `mIsEnabled` of object `id`.
-- A call of `onTakeover` or `onRelease` is an entry of the log.
pub mod Handover
mod Tests
use cooboc.Base.{
  ℕ, ◌+◌, ◌<◌, Bool, true, false, Option, none, some, List, [], ◌∷◌, ◌++◌, ltb, ◌==◌, if◌then◌else◌,
  get_or, set, replicate, not,
}

abbrev pub flight_status_default : ℕ
flight_status_default = 0

abbrev pub flight_status_manully : ℕ
flight_status_manully = 1

abbrev pub flight_status_attitude : ℕ
flight_status_attitude = 2

abbrev max_number_navigators : ℕ
max_number_navigators = 256

pub data Callback : Type 0 where
  on_takeover : ℕ → Callback
  on_release : ℕ → Callback

abbrev Fleet : Type 0
Fleet = ℕ → Bool

-- `mFlightStatus`, `mNavigators` (`none` is NULL), the store, and the calls made so far.
pub record Status : Type 0 where
  pub flight_status : ℕ
  pub navigators : List (Option ℕ)
  pub fleet : Fleet
  pub log : List Callback

-- The constructor, over the store as it is.
unfoldable pub new_status : Fleet → Status
new_status fleet = record {
  flight_status = flight_status_default;
  navigators = replicate max_number_navigators none;
  fleet = fleet;
  log = [];
}

unfoldable pub set_navigator : Status → ℕ → ℕ → Status
set_navigator s navi_id navigator = record s {
  navigators = set s.navigators navi_id (some navigator);
}

abbrev pub same : Bool → Bool → Bool
same true b = b
same false b = not b

-- `INavigator::setEnabled` on object `id`.
set_enabled : Status → ℕ → Bool → Status
set_enabled s id is_enabled = if same is_enabled (s.fleet id) then s else record s {
  fleet = λ k. if k == id then is_enabled else s.fleet k;
  log = s.log ++ ((if is_enabled then on_takeover id else on_release id) ∷ []);
}

-- `INavigator::work`: does it call `navigate`?
unfoldable pub navigates : Status → ℕ → Bool
navigates s id = s.fleet id

-- `signal.status` is the raw signal's sixth channel, an unsigned number.
pub decide_flight_status : ℕ → ℕ
decide_flight_status signal =
    if ltb 1500 signal then flight_status_attitude else flight_status_manully

-- `mNavigators[i]`.
abbrev pub navigator_at : Status → ℕ → Option ℕ
navigator_at s i = get_or s.navigators i none

-- `if (mNavigators[i] != NULL) mNavigators[i]->setEnabled(...)`.
enable_at : Option ℕ → Status → Bool → Status
unfolding set_enabled
enable_at none s is_enabled = s
enable_at (some id) s is_enabled = set_enabled s id is_enabled

on_flight_status_change : Status → ℕ → Status
unfolding enable_at
on_flight_status_change s status =
    let released = enable_at (navigator_at s s.flight_status) s false in
    let moved = record released { flight_status = status } in
    enable_at (navigator_at moved status) moved true

unfoldable pub work : Status → ℕ → Status
unfolding decide_flight_status on_flight_status_change
work s signal =
    let target_status = decide_flight_status signal in
    if target_status == s.flight_status then s else on_flight_status_change s target_status

-- The interval thread: one `work` for each signal that it finds.
pub run : Status → List ℕ → Status
run s [] = s
run s (x ∷ xs) = run (work s x) xs
