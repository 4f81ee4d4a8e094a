-- ===== src/TwoPhase/Timing.antt =====
-- `Timeout` of libsplinter/src/consensus/two_phase/timing.rs. An `Instant` is a number, and the
-- reading of the clock is an argument.
use splinter.Prelude.{ℕ, ◌-◌, Bool, true, false, ◌&&◌, ltb, if◌then◌else◌}

pub data TimeoutState : Type 0 where
  active inactive expired : TimeoutState

pub record Timeout : Type 0 where
  pub state : TimeoutState
  pub duration : ℕ
  pub start : ℕ

abbrev pub is_active : TimeoutState → Bool
is_active active = true
is_active inactive = false
is_active expired = false

abbrev pub is_expired : TimeoutState → Bool
is_expired active = false
is_expired inactive = false
is_expired expired = true

unfoldable pub new_timeout : ℕ → ℕ → Timeout
new_timeout duration now = record { state = inactive; duration = duration; start = now }

-- The updated timer, and whether it has expired.
unfoldable pub check_expired : ℕ → Timeout → Timeout × Bool
check_expired now t =
    let state' = if is_active t.state && ltb t.duration (now - t.start) then expired else t.state in
    (record t { state = state' }, is_expired state')

unfoldable pub start_timeout : ℕ → Timeout → Timeout
start_timeout now t = record t { state = active; start = now }

unfoldable pub stop_timeout : Timeout → Timeout
stop_timeout t = record t { state = inactive }
