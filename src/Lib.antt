-- ===== src/Lib.antt =====
-- McMini's model of a multithreaded program, and its search of the program's interleavings.
--
-- McMini runs a program under test one visible operation at a time. The model checker keeps a
-- model of the program: which objects it has (threads, mutexes, semaphores, condition variables),
-- which states they went through, and what each thread, a runner, does next. The search asks the
-- model who is enabled, lets one of them run, and later goes back to an earlier depth.
--
-- How the files correspond to the code:
--   Policy          include/mcmini/misc/cond and src/mcmini/model/cond_var_*.cpp: which sleeping
--                   thread may leave a condition variable. Default, SingleGroup and Arbitrary are
--                   the three classes; Wakeups and Groups hold their theorems.
--   Objects         include/mcmini/model/objects: the states of one object, as a data type with a
--                   constructor for each class.
--   State           include/mcmini/model/state.hpp as a record of answers; State/Injective is
--                   misc/injective_function.hpp, State/VisibleObject is model/visible_object.hpp,
--                   State/Diff and State/Detached are src/mcmini/model/diff_state.cpp and
--                   detached_state.cpp.
--   Transition      include/mcmini/model/transition.hpp and the classes below transitions/, one
--                   constructor for each and a function `modify_...` for each method `modify`.
--                   Mutex/Exclusion, Semaphore/Count, Condition/Wakes, Consistent and Commuting
--                   hold the theorems.
--   Sequence        src/mcmini/model/state_sequence.cpp: histories of objects, and elements that
--                   point into them; Creation has its constructors and
--                   Commuting is about the order in which transitions are followed.
--   Program         src/mcmini/model/program.cpp with pending_transitions.hpp and
--                   transition_sequence.cpp. Start has the program at the start of main, Reached
--                   is about all that is built from it, Rollback and Restore about going
--                   back, Enabled and Deadlock about who may run.
--   Dpor            src/mcmini/model_checking/algorithms/classic_dpor.cpp and the headers below
--                   classic_dpor/, with include/mcmini/misc/ddt.hpp in Dispatch. Context has the
--                   happens-before tests and the update at one index; Context/Expand what happens
--                   after a transition has run. Relations is the tables of classic_dpor.cpp, about
--                   which Symmetry and Independent are. Search is the loop `verify_using`; the modules
--                   below it show that it ends, that the stack stays in step with the trace, and
--                   that it reports the deadlocks it meets.
--   Coordinator     include/mcmini/coordinator/model_to_system_map.hpp with its part of
--                   src/mcmini/coordinator/coordinator.cpp. Callbacks has mutex.cpp,
--                   semaphore.cpp, thread.cpp and process.cpp of src/mcmini/model/transitions,
--                   Conditions has condition_variables.cpp; TransitionType and Registry are
--                   transitions.h and transition_registry.cpp. Session is the rest of
--                   coordinator.cpp, which drives a live process; Schedule is its abstract
--                   specification. Binding, Naming, Later, Kept and Synchronized hold
--                   theorems.
--   Spy             libmcmini, which is loaded into the program under test: src/lib/wrappers.c,
--                   sem-wrappers.c and record.c with src/mcmini/Thread_queue.c. A wrapper is a tree
--                   of what it does: calls of the library, sections under rec_list_lock, writes
--                   to its mailbox, and hand-overs to the scheduler. Announce and Mailboxes relate
--                   the mailbox to the callbacks of Coordinator; Distinct and Staying are
--                   about the list of records, Interleaving runs threads. The body of a
--                   thread is the two calls begins_routine and ends_routine.
--   Checkpoint      a restart from a checkpoint: the loop of src/lib/dmtcp-callback.c that sends the
--                   records through a pipe, and the functions of src/mcmini/mcmini.cpp that make a
--                   model of them and start a search. Transfer is about the pipe, Objects, Runners
--                   and Waiters about what is made of the records, Pending about the pending
--                   transitions; Recorded joins this with the runs of Spy, and Ends with Dpor.
--   Fixtures        a program of two threads and a mutex for the modules named Tests.
--   Prelude         shared helpers: lists, sets and maps over the native numbers, results.
--
-- The parts interact as in the code. `Transition.apply_to` runs `modify` on a diff of the state;
-- `Sequence.follow` moves the diff into the histories; `Program.model_execution_of` follows the
-- pending transition and files the next one; `Coordinator.Session.execute_runner` runs the runner
-- in the process, lets the callback translate the mailbox and executes the step in the model;
-- `Dpor.Context.Expand.expand_trace` then grows the stack, and `Dpor.Search.verify_using` decides
-- which runner is next. What the runner's thread has written in `Spy` is what the callbacks of
-- `Coordinator.Registry` read. An event list stands for the calls of the callbacks that a user
-- sets.
--
-- Conventions. A call that may throw, fail an assertion or be undefined returns a `Result`; the
-- constructors of `Error` say which. Unsigned arithmetic that wraps is written with its modulus,
-- and an `int` is kept as its 32-bit pattern. Hash sets and maps are lists without a promised
-- order. Pointers to shared states are values: the code copies a state before it changes it. A
-- loop over indices counts down. Only the loops of `verify_using` have a bound on their rounds: the
-- exploration gets as many as there are depths left, which is always enough, and the outer loop
-- gets fuel, for which 21 to the power of 2 more than the largest depth is enough, since every
-- round marks one more of the 20 runners as done at some depth. A live process is a parameter: a
-- source that makes one, always in the same state, and a function that runs a runner in it and
-- answers with a mailbox, or raises one of the exceptions of process.hpp.
--
-- The loops of the wrappers that record wait for the library to answer, which it need not do; they
-- get a number of rounds, and a wrapper that has used them up is unfinished.
--
-- Not modelled: the command line, logging and printing; how processes, mailboxes and
-- signals are made; in libmcmini the lookup of symbols, checkpoints and forks, which are mostly
-- system calls; and a write to a record through a member of its union that is not the one of its
-- tag.
pub mod Prelude
pub mod Policy
pub mod Objects
pub mod State
pub mod Transition
pub mod Sequence
pub mod Program
pub mod Coordinator
pub mod Checkpoint
pub mod Spy
pub mod Dpor
pub mod Fixtures
