-- ===== src/Pipeline/Thread.antt =====
-- `Thread` of inc/pipeline/thread.h, inc/pipeline/thread.hpp and src/pipeline/thread.cpp. The body
-- `Execute` belongs to the class that is derived; here it has `returned` or not, and it may return only
-- where it sees `stop`. A join that would wait for ever is `none`.
pub mod Lifecycle
mod Examples
use steam_deck_gyro_dsu_exte.Base.{Bool, true, false, not, Option, none, some, if◌then◌else◌, ◌&&◌}

-- The body of a thread that was started; it is `cancelling` once it is asked to be cancelled.
pub data Body : Type 0 where
  executing : Body
  cancelling : Body
  returned : Body

pub record Thread : Type 0 where
  pub execute_thread : Option Body
  pub stop : Bool

unfoldable pub new_thread : Thread
new_thread = record { execute_thread = none; stop = false }

unfoldable pub is_started : Thread → Bool
is_started t = elim t.execute_thread [ none ↦ false | some body ↦ true ]

unfoldable pub is_stopping : Thread → Bool
unfolding is_started
is_stopping t = is_started t && t.stop

should_continue : Thread → Bool
should_continue t = not t.stop

unfoldable pub start : Thread → Thread
start t = elim t.execute_thread [
  | none ↦ record { execute_thread = some executing; stop = false }
  | some body ↦ t
]

-- `stop = true` under the lock.
request_stop : Thread → Thread
request_stop t = record t { stop = true }

-- `join`, `reset` and `stop = false`. The join waits for a body that was asked to be cancelled until it
-- comes to a cancellation point, as pthreads documents; every body of the program does, since what it
-- waits in, on a condition variable, in a read or asleep, is one.
join : Thread → Option Thread
join t = elim t.execute_thread [
  | none ↦ some t
  | some executing ↦ none
  | some cancelling ↦ some (record { execute_thread = none; stop = false })
  | some returned ↦ some (record { execute_thread = none; stop = false })
]

-- What the body does while `Stop` waits, after `FlushPipes`.
run_body : (Bool → Body) → Thread → Thread
unfolding should_continue
run_body react t = elim t.execute_thread [
  | none ↦ t
  | some returned ↦ t
  | some cancelling ↦ t
  | some executing ↦ record t { execute_thread = some (react (should_continue t)) }
]

-- `Stop`: the body reacts to what `ShouldContinue` tells it.
unfoldable pub stop_thread : (Bool → Body) → Thread → Option Thread
unfolding request_stop join run_body
stop_thread react t = elim t.execute_thread [
  | none ↦ some t
  | some body ↦ join (run_body react (request_stop t))
]

-- `pthread_cancel`, which only asks.
cancel : Thread → Thread
cancel t = elim t.execute_thread [
  | none ↦ t
  | some returned ↦ t
  | some body ↦ record t { execute_thread = some cancelling }
]

kill : Thread → Option Thread
unfolding join cancel
kill t = elim t.execute_thread [ none ↦ some t | some body ↦ join (cancel t) ]

-- `TryStopThenKill`: `Stop` runs aside; where it has not come back at the end of the timeout, the
-- body is cancelled, and `Stop` then comes back.
unfoldable pub try_stop_then_kill : (Bool → Body) → Thread → Option Thread
unfolding stop_thread join cancel request_stop run_body
try_stop_then_kill react t = elim (stop_thread react t) [
  | some t' ↦ some t'
  | none ↦ join (cancel (run_body react (request_stop t)))
]

restart : (Bool → Body) → Thread → Option Thread
unfolding stop_thread start
restart react t = elim (stop_thread react t) [ none ↦ none | some t' ↦ some (start t') ]

unfoldable pub force_restart : Thread → Option Thread
unfolding kill start
force_restart t = elim (kill t) [ none ↦ none | some t' ↦ some (start t') ]

unfoldable pub try_restart_then_force_restart : (Bool → Body) → Thread → Option Thread
unfolding try_stop_then_kill start
try_restart_then_force_restart react t = elim (try_stop_then_kill react t) [
  | none ↦ none
  | some t' ↦ some (start t')
]
