-- ===== src/Coordinator/TransitionType.antt =====
-- include/mcmini/spy/checkpointing/transitions.h: `transition_type`.
use deep_debug.Prelude.{ℕ}

abbrev pub mutex_init : ℕ
mutex_init = 1

abbrev pub mutex_lock : ℕ
mutex_lock = 2

abbrev pub mutex_unlock : ℕ
mutex_unlock = 3

abbrev pub thread_create : ℕ
thread_create = 4

abbrev pub thread_join : ℕ
thread_join = 5

abbrev pub thread_exit : ℕ
thread_exit = 6

abbrev pub process_exit : ℕ
process_exit = 7

abbrev pub process_abort : ℕ
process_abort = 8

abbrev pub cond_enqueue : ℕ
cond_enqueue = 9

abbrev pub cond_init : ℕ
cond_init = 10

abbrev pub cond_wait : ℕ
cond_wait = 11

abbrev pub cond_signal : ℕ
cond_signal = 12

abbrev pub cond_broadcast : ℕ
cond_broadcast = 13

abbrev pub cond_destroy : ℕ
cond_destroy = 14

abbrev pub sem_init : ℕ
sem_init = 15

abbrev pub sem_wait : ℕ
sem_wait = 16

abbrev pub sem_post : ℕ
sem_post = 17

abbrev pub sem_destroy : ℕ
sem_destroy = 18
