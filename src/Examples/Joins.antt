-- ===== src/Examples/Joins.antt =====
-- The theorems on a Dedicated Thread's runtime and on the wait for a Task, applied.
use edp_threading.Base.{ℕ, suc, ◌==◌, true, false, some, arith, if◌then◌else◌}
use edp_threading.Lifecycle.{Outcome}
use edp_threading.Wait.Budget.{Delta, difference}
use edp_threading.Wait.Loop.{SignalWaitResult}
use edp_threading.Thread.Runtime.{
  DedicatedThreadRuntime, Services, start_activation, publish_stopped,
}
use edp_threading.Thread.Runtime.Starting.{Starts, start_activation_lem}
use edp_threading.Thread.Runtime.Publishing.{Publishes, publish_stopped_lem}
use edp_threading.Thread.Runtime.Join.{environment}
use edp_threading.Facility.Core.{TaskRecordBinding}
use edp_threading.Runtime.{Router}
use edp_threading.Runtime.Waiting.{Surroundings, environment as facility_environment}
use edp_threading.Examples.Topologies.{two}
use edp_threading.Examples.Runtimes.{counting}

abbrev delta : Delta
delta from to = difference to from

-- The world is the time. The activation stops while it is waited for.
abbrev stopping : Services ℕ
stopping = record {
  acquire = λ timeout rt. (rt, true);
  release = λ w. (w, true);
  wake = λ context w. (w, Outcome.succeeded);
  wait = λ context timeout rt. (
    record rt { control = record { value = 7 }; world = suc rt.world },
    SignalWaitResult.signaled,
  );
  is_interrupted = λ context w. (w, false);
  current_context_index = some 2;
  can_activate = λ w. (w, true);
  should_terminate = λ w. (w, false);
  is_current_context = λ w. false;
  callable = λ rt. rt;
  monotonic_now = λ w. w;
  delta = delta;
}

-- Running, in the second Phase, with context 3 registered to join it.
abbrev started : DedicatedThreadRuntime ℕ
started = record {
  control = record { value = 5 };
  join_waiters = λ i. record { phase = true; waiting_context_index = if i == 0 then 3 else 255 };
  world = 0;
}

-- Stopped, in the second Phase.
abbrev rested : DedicatedThreadRuntime ℕ
rested = record started { control = record { value = 7 } }

start_activation_lem_example :
    Starts stopping 4 255 1 rested (start_activation stopping 4 255 1 rested)
start_activation_lem_example = start_activation_lem stopping 4 255 1 rested (omega arith)

publish_stopped_lem_example :
    Publishes stopping 4 255 1 started true (publish_stopped stopping 4 255 1 started true)
publish_stopped_lem_example = publish_stopped_lem stopping 4 255 1 started true (omega arith)

-- The caller waits on context 2.
abbrev managed : Router ℕ
managed = record counting { current_context_index = some 2 }

abbrev quiet : Surroundings two ℕ
quiet = record {
  others = λ rt. rt;
  wait = λ context timeout rt. (record rt { world = suc rt.world }, SignalWaitResult.timed_out);
  is_interrupted = λ context w. (w, false);
  monotonic_now = λ w. w;
  delta = delta;
}

abbrev queued : TaskRecordBinding
queued = record { record_index = 0; phase = true }
