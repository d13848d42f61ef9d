-- ===== src/Objects.antt =====
-- include/mcmini/model/objects: the states of the objects that threads share. A pointer is its
-- address, with 0 for `nullptr`.
pub mod Thread
pub mod Mutex
pub mod Semaphore
pub mod ConditionVariable
use deep_debug.Prelude.{ℕ, ◌-◌, ◌^◌, Result, ok, err, bad_cast}
use Thread.{ThreadState}

-- `visible_object_state` and its subclasses.
pub data ObjectState : Type 0 where
  thread : ThreadState → ObjectState
  mutex : Mutex.Mutex → ObjectState
  semaphore : Semaphore.Semaphore → ObjectState
  condition_variable : ConditionVariable.ConditionVariable → ObjectState

-- `static_cast<const mutex *>` and the like, undefined on an object of another class.
unfoldable pub as_thread : ObjectState → Result ThreadState
as_thread (thread t) = ok t
as_thread _ = err bad_cast

unfoldable pub as_mutex : ObjectState → Result Mutex.Mutex
as_mutex (mutex m) = ok m
as_mutex _ = err bad_cast

unfoldable pub as_semaphore : ObjectState → Result Semaphore.Semaphore
as_semaphore (semaphore s) = ok s
as_semaphore _ = err bad_cast

unfoldable pub as_condition_variable : ObjectState → Result ConditionVariable.ConditionVariable
as_condition_variable (condition_variable c) = ok c
as_condition_variable _ = err bad_cast
