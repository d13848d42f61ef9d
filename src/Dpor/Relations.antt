-- ===== src/Dpor/Relations.antt =====
-- `default_dependencies` and `default_coenabledness` of classic_dpor.cpp, with the member functions
-- `depends` and `coenabled_with` of the transitions that they register.
pub mod Symmetry
pub mod Independent
mod Tests
use deep_debug.Prelude.{
  ℕ, ◌==◌, Bool, true, false, not, ◌&&◌, ◌||◌, if◌then◌else◌, Result, ok, err, ◌>>=◌,
}
use deep_debug.Transition.{
  Transition, thread_create, thread_join, mutex_init, mutex_lock, mutex_unlock, cond_init,
  cond_wait, cond_signal, cond_broadcast, cond_destroy, get_executor,
}
use deep_debug.Dpor.Dispatch.{
  Table, Callback, empty_table, register_interface, register_pair, call_or,
}

-- The calls go through casts to the registered classes; the other clauses are not reached.
unfoldable pub thread_create_depends : Callback
thread_create_depends (thread_create p target) t = target == get_executor t
thread_create_depends _ t = false

unfoldable pub thread_create_coenabled_with : Callback
thread_create_coenabled_with (thread_create p target) t = not (target == get_executor t)
thread_create_coenabled_with _ t = false

unfoldable pub thread_join_depends : Callback
thread_join_depends (thread_join p target) t = target == get_executor t
thread_join_depends _ t = false

unfoldable pub thread_join_coenabled_with : Callback
thread_join_coenabled_with (thread_join p target) t = not (target == get_executor t)
thread_join_coenabled_with _ t = false

unfoldable pub mutex_lock_depends : Callback
mutex_lock_depends (mutex_lock p m) (mutex_init q n) = m == n
mutex_lock_depends (mutex_lock p m) (mutex_lock q n) = m == n
mutex_lock_depends _ _ = false

unfoldable pub mutex_lock_coenabled_with : Callback
mutex_lock_coenabled_with (mutex_lock p m) (mutex_unlock q n) = not (m == n)
mutex_lock_coenabled_with _ _ = false

unfoldable pub cond_wait_depends : Callback
cond_wait_depends (cond_wait p c m) (cond_init q d) = c == d
cond_wait_depends (cond_wait p c m) (mutex_lock q n) = m == n
cond_wait_depends _ _ = false

-- `signal.depends(mutex_lock)` compares the id of a condition variable with that of a mutex.
unfoldable pub cond_signal_depends : Callback
cond_signal_depends (cond_signal p c) (cond_wait q d m) = c == d
cond_signal_depends (cond_signal p c) (mutex_lock q n) = c == n
cond_signal_depends _ _ = false

unfoldable pub cond_signal_coenabled_with : Callback
cond_signal_coenabled_with (cond_signal p c) (mutex_unlock q n) = not (c == n)
cond_signal_coenabled_with (cond_signal p c) (cond_wait q d m) = not (c == d)
cond_signal_coenabled_with _ _ = false

unfoldable pub cond_broadcast_coenabled_with : Callback
cond_broadcast_coenabled_with (cond_broadcast p c) (cond_wait q d m) = true
cond_broadcast_coenabled_with (cond_broadcast p c) (mutex_unlock q n) = true
cond_broadcast_coenabled_with _ _ = false

unfoldable pub cond_destroy_coenabled_with : Callback
cond_destroy_coenabled_with (cond_destroy p c) (cond_wait q d m) = not (c == d)
cond_destroy_coenabled_with (cond_destroy p c) (cond_signal q d) = not (c == d)
cond_destroy_coenabled_with _ _ = false

-- The numbers are those of `type_index`.
unfoldable pub default_dependencies : Result Table
unfolding register_interface register_pair
default_dependencies = do
  t1 ← register_interface 0 thread_create_depends empty_table
  t2 ← register_interface 3 thread_join_depends t1
  t3 ← register_pair 7 6 mutex_lock_depends t2
  t4 ← register_pair 7 7 mutex_lock_depends t3
  t5 ← register_pair 15 13 cond_wait_depends t4
  t6 ← register_pair 15 7 cond_wait_depends t5
  t7 ← register_pair 16 15 cond_signal_depends t6
  register_pair 16 7 cond_signal_depends t7

unfoldable pub default_coenabledness : Result Table
unfolding register_interface register_pair
default_coenabledness = do
  t1 ← register_interface 0 thread_create_coenabled_with empty_table
  t2 ← register_interface 3 thread_join_coenabled_with t1
  t3 ← register_pair 7 8 mutex_lock_coenabled_with t2
  t4 ← register_pair 16 15 cond_signal_coenabled_with t3
  t5 ← register_pair 16 8 cond_signal_coenabled_with t4
  t6 ← register_pair 17 15 cond_broadcast_coenabled_with t5
  t7 ← register_pair 17 8 cond_broadcast_coenabled_with t6
  t8 ← register_pair 18 15 cond_destroy_coenabled_with t7
  register_pair 18 16 cond_destroy_coenabled_with t8

-- `config.dependency_relation` and `config.coenabled_relation`.
pub record Relations : Type 0 where
  pub dependency_relation : Table
  pub coenabled_relation : Table

unfoldable pub default_relations : Result Relations
unfolding default_dependencies default_coenabledness
default_relations = do
  d ← default_dependencies
  c ← default_coenabledness
  ok (record { dependency_relation = d; coenabled_relation = c })

unfoldable pub are_dependent : Relations → Transition → Transition → Bool
unfolding call_or
are_dependent config t1 t2 =
    get_executor t1 == get_executor t2 || call_or true t1 t2 config.dependency_relation

unfoldable pub are_coenabled : Relations → Transition → Transition → Bool
unfolding call_or
are_coenabled config t1 t2 =
    not (get_executor t1 == get_executor t2) && call_or true t1 t2 config.coenabled_relation

unfoldable pub are_independent : Relations → Transition → Transition → Bool
unfolding are_dependent
are_independent config t1 t2 = not (are_dependent config t1 t2)
