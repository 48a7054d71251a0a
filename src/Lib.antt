-- ===== src/Lib.antt =====
-- Verification of EDP-Threading, the statically bounded threading component of the ESPressio
-- Development Platform: Tasks that are dispatched to facilities of Workers, Dedicated Threads, and
-- the lifecycle of the topology that owns them. The code is header-only C++ under src/threading.
--
-- The parts of the program and how they meet. A topology owns a tuple of resources. A Task facility
-- holds an array of Task records: dispatch admits a callable to a free record, which waits in an
-- intrusive FIFO; a Worker claims the oldest one, invokes it without the facility's lock, and
-- publishes its outcome; the handle cancels it, releases it or takes its result; a terminal record
-- without an owner is reclaimed. A record index alone does not name a Task, since records are
-- reused: a one-bit Phase goes with it. The lifecycle starts every resource as one transaction and
-- takes them down in two steps, and resources ask it whether they may activate or must terminate.
--
-- Which file models which part:
--   Topology          EDP-BoundedTopology's index types, bit sets and intrusive queue, which are not
--                     in this repository: interfaces with the behaviour that is relied on. One
--                     implementation at every capacity is in Topology/Lawful.
--   Types             src/threading/ThreadingTypes.hpp
--   Task/Control      TaskControl of detail/TaskRecord.hpp: the packed control byte
--   Task/Record       TaskRecord of detail/TaskRecord.hpp: the record and its shared scratch field
--   Task/Payload      detail/TaskPayloadAdapter.hpp: the lifetime of callables and results
--   Facility          detail/TaskFacilityCore.hpp; Facility/Core has the state and one function for
--                     each operation, named as in the source (Admit is `admit`, Cancel is `cancel`,
--                     ReleaseOwner is `release_task_owner`, Invoke is `invoke_task`); its siblings
--                     have the well-formedness `Inv` and what each operation does to it;
--                     Facility/History has the calls in any order
--   Worker            detail/WorkerLeaseScheduler.hpp
--   Wait/Registration detail/WaitRegistration.hpp
--   Wait/Budget       detail/MonotonicWaitBudget.hpp
--   Wait/Loop         the wait that JoinWithBudget of detail/DedicatedThreadRuntime.hpp and
--                     WaitWithBudget, WaitForAdmissionCapacity and WaitForWorkerGrant of
--                     detail/TaskFacilityRuntime.hpp each write out
--   Mutex             src/threading/FailClosedOrdinaryMutexProvider.hpp
--   Thread/Control    detail/DedicatedThreadControl.hpp
--   Thread/Runtime    detail/DedicatedThreadRuntime.hpp over the control byte; its children have the
--                     joins, the waits and the observations
--   Lifecycle         detail/InfrastructureLifecycle.hpp
--   Runtime           detail/TaskFacilityRuntime.hpp: Runtime and Runtime/Completion have the
--                     scheduling and the completion of Workers, Runtime/Handles the calls of the
--                     handles, Runtime/Dispatch the dispatch with its backpressure (its children the
--                     loop, and Admit and WorkerBecameAvailable), Runtime/Waiting
--                     the waits for a Task and for a Worker's grant, Runtime/Shutdown the
--                     cancellation at shutdown, Runtime/Observation the queries
--   Shutdown          detail/ShutdownWaitRuntime.hpp; Shutdown/Coordinator has
--                     detail/ShutdownCoordinator.hpp and detail/ThreadingBootstrap.hpp
--   Routing           detail/ManagedContextWakeSet.hpp and detail/ManagedContextRouter.hpp
--   Owner             BeginShutdown and FinalizeShutdown of detail/StaticTopologyOwner.hpp, over
--                     detail/StaticTopologyResourceStorage.hpp
--   Examples          runs of the models on concrete inputs
--
-- How the state is modelled. A core is a record of the array of Task records (a function of the
-- index), the set of available records and the ends of the queue; an operation takes a core and
-- returns one beside its result. The template arguments of a facility are the fields of `Topology`.
-- Callables and results are numbers, and what callables do is a parameter. Payload storage is a
-- state with a value of its own, `corrupt`, for a use as something that it does not hold: in a
-- well-formed core no record is corrupt. What the lifecycle calls outside (start, wake, join,
-- destroy of a resource, the spin lock, the waiters) is a parameter `Platform`, any function of a
-- world and a call; a failure is any of the other enumerators, by number.
--
-- Code that blocks. Each call that blocks or that lets another thread in, namely the acquisition of
-- a mutex and the wait on the router, is a parameter that may change the whole shared state: it
-- stands for whatever the other threads do meanwhile. The code between two
-- such calls is a function of the state that it finds. So a theorem on a wait is one for every
-- behaviour of the other threads.
--
-- Bounds and fuel. Casts to the index types are written out as remainders. The loop of QueuedTasks
-- over the links runs on fuel, the record capacity, and the scheduling pass on the record capacity and
-- one more; both are enough on a well-formed core. The wait loops run on fuel too: with a clock that
-- advances in each wait, one turn for each nanosecond of the budget and one more are enough.
-- Dispatch under backpressure and the acquisition of a fail-closed mutex repeat for as long as the
-- other threads make them, and have no bound in the source: their fuel is a parameter. All other
-- loops are bounded by a capacity in the source and are structural here.
--
-- Not modelled: the set-up of detail/DedicatedThreadRuntime.hpp and its calls of the execution-context
-- provider, the spin lock inside the fail-closed mutex (a read or a write of its flag is one step),
-- the owned runtimes, which store callables and forward, the Workers' own loop, the Dedicated
-- Workers' leases, the composition templates that compute a topology's layout, and the public
-- handles, which forward to the runtimes.
pub mod Base
pub mod Types
pub mod Topology
pub mod Task
pub mod Facility
pub mod Worker
pub mod Wait
pub mod Mutex
pub mod Lifecycle
pub mod Runtime
pub mod Owner
pub mod Shutdown
pub mod Routing
pub mod Thread
pub mod Examples
