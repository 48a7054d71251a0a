-- ===== src/Types.antt =====
-- src/threading/ThreadingTypes.hpp: the public result and state enumerations, with the source's
-- enumerators.

pub data TaskState : Type 0 where
  queued running completed cancelled : TaskState

pub data TaskDispatchStatus : Type 0 where
  succeeded unavailable timed_out interrupted shutting_down : TaskDispatchStatus

pub data TaskWaitResult : Type 0 where
  finished timed_out interrupted : TaskWaitResult

pub data TaskCancelResult : Type 0 where
  accepted already_finished : TaskCancelResult

pub data TaskTakeStatus : Type 0 where
  succeeded not_completed cancelled : TaskTakeStatus

pub data ThreadState : Type 0 where
  never_started running stopped : ThreadState

pub data ThreadStartResult : Type 0 where
  started already_running activation_failed shutting_down : ThreadStartResult

pub data ThreadStopRequestResult : Type 0 where
  accepted not_running : ThreadStopRequestResult

pub data ThreadJoinResult : Type 0 where
  joined timed_out interrupted never_started : ThreadJoinResult

pub data ThreadWakeResult : Type 0 where
  woken provider_failure : ThreadWakeResult

pub data ThreadWaitResult : Type 0 where
  woken timed_out provider_failure : ThreadWaitResult

pub data ThreadingInitializationResult : Type 0 where
  succeeded already_initialized invalid_topology provider_failure : ThreadingInitializationResult

pub data ThreadingStartResult : Type 0 where
  succeeded not_initialized already_started provider_failure : ThreadingStartResult

pub data ThreadingShutdownResult : Type 0 where
  accepted already_shutting_down already_completed not_started : ThreadingShutdownResult

pub data ThreadingFinalizationResult : Type 0 where
  completed not_shutting_down execution_not_quiescent provider_failure : ThreadingFinalizationResult

pub data TaskDispatchPolicy : Type 0 where
  queue queue_with_timeout abandon_immediately : TaskDispatchPolicy

pub data ShutdownWaitResult : Type 0 where
  completed timed_out interrupted : ShutdownWaitResult
