-- ===== src/Dpor/Relations/Symmetry.antt =====
-- What the default tables say of two transitions.
use deep_debug.Prelude.{ℕ, ◌==◌, [], ◌≡◌, ◌≢◌, Bool, true, false, not, ◌||◌, ok, err, arith}
use deep_debug.Transition.{
  Transition, thread_create, thread_join, mutex_init, mutex_lock, cond_init, cond_wait, cond_signal,
  get_executor,
}
use deep_debug.Dpor.Dispatch.{call_or, call_interface_or}
use deep_debug.Dpor.Relations.{
  Relations, default_relations, are_dependent, thread_create_depends, thread_join_depends,
  mutex_lock_depends, cond_wait_depends, cond_signal_depends,
}

-- No registration collides with an earlier one, so both tables can be built.
unfoldable pub tables : Relations
unfolding default_relations
tables = elim default_relations [
  | ok r ↦ r
  | err e ↦ record {
    dependency_relation = record { internal_table = []; interface_table = [] };
    coenabled_relation = record { internal_table = []; interface_table = [] };
  }
]

-- When two transitions of different runners are independent: what the table amounts to.
unfoldable pub declared_independent : Transition → Transition → Bool
declared_independent (mutex_lock p m) (mutex_init q n) = not (m == n)
declared_independent (mutex_init p m) (mutex_lock q n) = not (n == m)
declared_independent (mutex_lock p m) (mutex_lock q n) = not (n == m)
declared_independent (mutex_lock p m) (cond_wait q d n) = not (n == m)
declared_independent (mutex_lock p m) (cond_signal q d) = not (d == m)
declared_independent (cond_wait p c m) (cond_init q d) = not (c == d)
declared_independent (cond_init p c) (cond_wait q d m) = not (d == c)
declared_independent (cond_wait p c m) (mutex_lock q n) = not (m == n)
declared_independent (cond_wait p c m) (cond_signal q d) = not (d == c)
declared_independent (cond_signal p c) (cond_wait q d m) = not (c == d)
declared_independent (cond_signal p c) (mutex_lock q n) = not (c == n)
declared_independent (mutex_lock p m) u = false
declared_independent (mutex_init p m) u = false
declared_independent (cond_wait p c m) u = false
declared_independent (cond_init p c) u = false
declared_independent (cond_signal p c) u = false
declared_independent (thread_create p target) u = not (target == get_executor u)
declared_independent (thread_join p target) u = not (target == get_executor u)
declared_independent t (thread_create q target) = not (target == get_executor t)
declared_independent t (thread_join q target) = not (target == get_executor t)
declared_independent t u = false

-- With the default tables two transitions are dependent exactly when they have the same executor or
-- `declared_independent` does not hold of them.
pub are_dependent_lem :
    (t u : Transition)
    → are_dependent tables t u
      ≡ ((get_executor t == get_executor u) || not (declared_independent t u))
unfolding tables are_dependent declared_independent default_relations call_or call_interface_or
    thread_create_depends thread_join_depends mutex_lock_depends cond_wait_depends
    cond_signal_depends
are_dependent_lem t u = ground arith

-- With the default tables a join by one runner is independent of a lock by another that is not its
-- target, but that lock is dependent on that join.
pub are_dependent-asymmetric :
    (p q target m : ℕ)
    → p ≢ q
    → target ≢ q
    → (are_dependent tables (thread_join p target) (mutex_lock q m) ≡ false)
      × (are_dependent tables (mutex_lock q m) (thread_join p target) ≡ true)
unfolding tables are_dependent default_relations call_or call_interface_or thread_create_depends
    thread_join_depends mutex_lock_depends cond_wait_depends cond_signal_depends
are_dependent-asymmetric p q target m apart other = ground arith
