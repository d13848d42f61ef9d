-- ===== src/Dpor/Dispatch.antt =====
-- include/mcmini/misc/ddt.hpp: a table of functions chosen by the classes of two transitions.
use deep_debug.Prelude.{
  ℕ, Bool, List, [], none, some, lookup, assign, has_key, if◌then◌else◌, Result, ok, err,
  invalid_insertion,
}
use deep_debug.Transition.{
  Transition, thread_create, thread_start, thread_exit, thread_join, process_exit, process_abort,
  mutex_init, mutex_lock, mutex_unlock, sem_init, sem_post, sem_wait, sem_destroy, cond_init,
  cond_enqueue, cond_wait, cond_signal, cond_broadcast, cond_destroy,
}

-- `std::type_index(typeid(t))`: a number for each class.
abbrev pub type_index : Transition → ℕ
type_index (thread_create p t) = 0
type_index (thread_start p) = 1
type_index (thread_exit p) = 2
type_index (thread_join p t) = 3
type_index (process_exit p c) = 4
type_index (process_abort p) = 5
type_index (mutex_init p m) = 6
type_index (mutex_lock p m) = 7
type_index (mutex_unlock p m) = 8
type_index (sem_init p s c) = 9
type_index (sem_post p s) = 10
type_index (sem_wait p s) = 11
type_index (sem_destroy p s) = 12
type_index (cond_init p c) = 13
type_index (cond_enqueue p c m) = 14
type_index (cond_wait p c m) = 15
type_index (cond_signal p c) = 16
type_index (cond_broadcast p c) = 17
type_index (cond_destroy p c) = 18

abbrev pub Callback : Type 0
Callback = Transition → Transition → Bool

-- `internal_table` and `interface_member_function_table`.
pub record Table : Type 0 where
  pub internal_table : List (ℕ × List (ℕ × Callback))
  pub interface_table : List (ℕ × Callback)

abbrev pub empty_table : Table
empty_table = record { internal_table = []; interface_table = [] }

-- `register_dd_entry<T>(callback)`
unfoldable pub register_interface : ℕ → Callback → Table → Result Table
register_interface t callback table =
    if has_key t table.interface_table
    then err invalid_insertion
    else ok (record table { interface_table = assign t callback table.interface_table })

-- `internal_table[t1]`, empty where there is none.
abbrev pub row : ℕ → Table → List (ℕ × Callback)
row t1 table = elim (lookup t1 table.internal_table) [ some r ↦ r | none ↦ [] ]

abbrev pub enter : ℕ → ℕ → Callback → Table → Table
enter t1 t2 f table = record table {
  internal_table = assign t1 (assign t2 f (row t1 table)) table.internal_table;
}

-- `register_dd_entry<T1, T2>(callback)`: the second entry swaps its arguments.
unfoldable pub register_pair : ℕ → ℕ → Callback → Table → Result Table
register_pair t1 t2 callback table =
    if has_key t2 (row t1 table)
    then err invalid_insertion
    else ok (enter t2 t1 (λ a b. callback b a) (enter t1 t2 callback table))

-- The last part of `call_or`, for a first class with no row.
unfoldable pub call_interface_or : Bool → Transition → Transition → Table → Bool
call_interface_or fallback t1 t2 table = elim (lookup (type_index t1) table.interface_table) [
  | some f ↦ f t1 t2
  | none ↦ elim (lookup (type_index t2) table.interface_table) [
    | some f ↦ f t2 t1
    | none ↦ fallback
  ]
]

-- A row for the first class without the second gives the fallback: the interface functions are
-- then not asked.
unfoldable pub call_or : Bool → Transition → Transition → Table → Bool
unfolding call_interface_or
call_or fallback t1 t2 table = elim (lookup (type_index t1) table.internal_table) [
  | some r ↦ elim (lookup (type_index t2) r) [ some f ↦ f t1 t2 | none ↦ fallback ]
  | none ↦ call_interface_or fallback t1 t2 table
]
