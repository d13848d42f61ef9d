-- ===== src/Dpor/Relations/Independent.antt =====
-- What it means for the search that transitions are declared independent.
use deep_debug.Prelude.{
  ℕ, ◌==◌, ==-eq, ◌≡◌, ◌≢◌, refl, Bool-cases, inl, inr, true, false, ◌||◌, ok, err, ◌>>=◌,
  >>=-eq-ok, arith, bad_cast,
}
use deep_debug.Objects.{ObjectState, as_thread}
use deep_debug.Objects.Mutex.{Mutex}
use deep_debug.Objects.Semaphore.{Semaphore}
use deep_debug.Objects.ConditionVariable.{ConditionVariable}
use deep_debug.State.{State}
use deep_debug.Transition.{
  Transition, thread_create, thread_join, mutex_init, mutex_lock, mutex_unlock, sem_init, sem_post,
  sem_wait, sem_destroy, cond_init, cond_enqueue, cond_wait, cond_signal, cond_broadcast,
  cond_destroy, get_executor, apply_to,
}
use deep_debug.Transition.Status.{Status}
use deep_debug.Transition.Commuting.Modify.{is_on_objects, touches}
use deep_debug.Transition.Commuting.Apart.{AreApart}
use deep_debug.Sequence.{StateSequence, current, follow, get_state_of_runner, get_objid_for_runner}
use deep_debug.Sequence.Commuting.Follow.{IsSnapshot}
use deep_debug.Sequence.Commuting.Orders.{SameState, StaysClear, follow-commutes}
use deep_debug.Dpor.Relations.{are_dependent}
use deep_debug.Dpor.Relations.Symmetry.{tables, declared_independent, are_dependent_lem}

abbrev pub HasMutex : State → ℕ → Type 0
HasMutex s m = (ms : Mutex) × (s.get_state_of_object m ≡ ok (ObjectState.mutex ms))

abbrev pub HasSemaphore : State → ℕ → Type 0
HasSemaphore s m = (sem : Semaphore) × (s.get_state_of_object m ≡ ok (ObjectState.semaphore sem))

abbrev pub HasCondition : State → ℕ → Type 0
HasCondition s c =
    (cv : ConditionVariable) × (s.get_state_of_object c ≡ ok (ObjectState.condition_variable cv))

-- The ids that a transition has for objects are the ids of objects of its kinds.
abbrev pub NamesKinds : State → Transition → Type 0
NamesKinds s (mutex_init p m) = HasMutex s m
NamesKinds s (mutex_lock p m) = HasMutex s m
NamesKinds s (mutex_unlock p m) = HasMutex s m
NamesKinds s (sem_init p m c) = HasSemaphore s m
NamesKinds s (sem_post p m) = HasSemaphore s m
NamesKinds s (sem_wait p m) = HasSemaphore s m
NamesKinds s (sem_destroy p m) = HasSemaphore s m
NamesKinds s (cond_init p c) = HasCondition s c
NamesKinds s (cond_enqueue p c m) = HasCondition s c × HasMutex s m
NamesKinds s (cond_wait p c m) = HasCondition s c × HasMutex s m
NamesKinds s (cond_signal p c) = HasCondition s c
NamesKinds s (cond_broadcast p c) = HasCondition s c
NamesKinds s (cond_destroy p c) = HasCondition s c
NamesKinds s _ = Unit

-- No runner has its state in this object.
abbrev IsNoThread : State → ℕ → Type 0
IsNoThread s j = (s.get_state_of_object j >>= as_thread) ≡ err bad_cast

mutex-IsNoThread : (s : State) (m j : ℕ) → HasMutex s m → (m == j) ≡ true → IsNoThread s j
unfolding as_thread
mutex-IsNoThread s m j (ms, found) hit = let same = ==-eq m j hit in rw (← same, found) refl

semaphore-IsNoThread : (s : State) (m j : ℕ) → HasSemaphore s m → (m == j) ≡ true → IsNoThread s j
unfolding as_thread
semaphore-IsNoThread s m j (sem, found) hit = let same = ==-eq m j hit in rw (← same, found) refl

condition-IsNoThread : (s : State) (c j : ℕ) → HasCondition s c → (c == j) ≡ true → IsNoThread s j
unfolding as_thread
condition-IsNoThread s c j (cv, found) hit = let same = ==-eq c j hit in rw (← same, found) refl

either-IsNoThread :
    (s : State) (c m j : ℕ)
    → HasCondition s c × HasMutex s m
    → ((c == j) || (m == j)) ≡ true
    → IsNoThread s j
either-IsNoThread s c m j (has_c, has_m) hit = elim (Bool-cases (c == j)) [
  | inl first ↦ condition-IsNoThread s c j has_c first
  | inr other ↦ mutex-IsNoThread s m j has_m (ground arith)
]

touched-IsNoThread :
    (s : State) (t : Transition) (j : ℕ) → NamesKinds s t → touches t j ≡ true → IsNoThread s j
touched-IsNoThread s (mutex_init p m) j k hit = mutex-IsNoThread s m j k hit
touched-IsNoThread s (mutex_lock p m) j k hit = mutex-IsNoThread s m j k hit
touched-IsNoThread s (mutex_unlock p m) j k hit = mutex-IsNoThread s m j k hit
touched-IsNoThread s (sem_init p m c) j k hit = semaphore-IsNoThread s m j k hit
touched-IsNoThread s (sem_post p m) j k hit = semaphore-IsNoThread s m j k hit
touched-IsNoThread s (sem_wait p m) j k hit = semaphore-IsNoThread s m j k hit
touched-IsNoThread s (sem_destroy p m) j k hit = semaphore-IsNoThread s m j k hit
touched-IsNoThread s (cond_init p c) j k hit = condition-IsNoThread s c j k hit
touched-IsNoThread s (cond_enqueue p c m) j k hit = either-IsNoThread s c m j k hit
touched-IsNoThread s (cond_wait p c m) j k hit = either-IsNoThread s c m j k hit
touched-IsNoThread s (cond_signal p c) j k hit = condition-IsNoThread s c j k hit
touched-IsNoThread s (cond_broadcast p c) j k hit = condition-IsNoThread s c j k hit
touched-IsNoThread s (cond_destroy p c) j k hit = condition-IsNoThread s c j k hit
touched-IsNoThread s t j k hit = cc

-- The executor of a transition that is followed has its state in an object of another kind.
follow-StaysClear :
    (t u : Transition) (s s' : StateSequence) (status : Status)
    → NamesKinds (current s) t
    → follow u s ≡ ok (s', status)
    → StaysClear t s u
unfolding follow apply_to get_state_of_runner
follow-StaysClear t u s s' status k h =
    let (r, applied, h1) = >>=-eq-ok (apply_to u (current s)) _ h in
    let (runner, found, h2) =
      >>=-eq-ok (get_state_of_runner s s.representative (get_executor u)) _ applied in
    let id = get_objid_for_runner s s.representative (get_executor u) in
    elim (Bool-cases (touches t id)) [
      | inl hit ↦ let none_there = touched-IsNoThread (current s) t id k hit in cc
      | inr miss ↦ miss
    ]

kinds_differ : (s : State) (c m : ℕ) → HasCondition s c → HasMutex s m → c ≢ m
kinds_differ s c m (cv, is_condition) (ms, is_mutex) same = cc

declared_independent-AreApart :
    (s : State) (t u : Transition)
    → is_on_objects t ≡ true
    → is_on_objects u ≡ true
    → NamesKinds s t
    → NamesKinds s u
    → declared_independent t u ≡ true
    → AreApart t u
unfolding declared_independent
declared_independent-AreApart s (mutex_lock p m) (mutex_init q n) on_t on_u k1 k2 h j = ground arith
declared_independent-AreApart s (mutex_init p m) (mutex_lock q n) on_t on_u k1 k2 h j = ground arith
declared_independent-AreApart s (mutex_lock p m) (mutex_lock q n) on_t on_u k1 k2 h j = ground arith
declared_independent-AreApart s (mutex_lock p m) (cond_wait q d n) on_t on_u k1 k2 h j =
    let apart = kinds_differ s d m k2.0 k1 in ground arith
declared_independent-AreApart s (mutex_lock p m) (cond_signal q d) on_t on_u k1 k2 h j =
    ground arith
declared_independent-AreApart s (cond_wait p c m) (cond_init q d) on_t on_u k1 k2 h j =
    let apart = kinds_differ s d m k2 k1.1 in ground arith
declared_independent-AreApart s (cond_init p c) (cond_wait q d m) on_t on_u k1 k2 h j =
    let apart = kinds_differ s c m k1 k2.1 in ground arith
declared_independent-AreApart s (cond_wait p c m) (mutex_lock q n) on_t on_u k1 k2 h j =
    let apart = kinds_differ s c n k1.0 k2 in ground arith
declared_independent-AreApart s (cond_wait p c m) (cond_signal q d) on_t on_u k1 k2 h j =
    let apart = kinds_differ s d m k2 k1.1 in ground arith
declared_independent-AreApart s (cond_signal p c) (cond_wait q d m) on_t on_u k1 k2 h j =
    let apart = kinds_differ s c m k1 k2.1 in ground arith
declared_independent-AreApart s (cond_signal p c) (mutex_lock q n) on_t on_u k1 k2 h j =
    ground arith
declared_independent-AreApart s t (thread_create q x) on_t on_u k1 k2 h j = cc
declared_independent-AreApart s t (thread_join q x) on_t on_u k1 k2 h j = cc
declared_independent-AreApart s t u on_t on_u k1 k2 h j = cc

-- If two transitions on mutexes, semaphores and condition variables have the ids of objects of
-- these kinds and are not dependent by the default tables, and both can be followed from a sequence
-- whose last element is a snapshot of its objects, with whatever status, then each can be followed
-- with the same status after the other, and either order leads to the same histories of all
-- objects, the same runners and the same last element.
pub are_dependent-commutes :
    (t u : Transition) (s s1 s2 : StateSequence) (status1 status2 : Status)
    → is_on_objects t ≡ true
    → is_on_objects u ≡ true
    → NamesKinds (current s) t
    → NamesKinds (current s) u
    → IsSnapshot s
    → are_dependent tables t u ≡ false
    → follow t s ≡ ok (s1, status1)
    → follow u s ≡ ok (s2, status2)
    → (s12 : StateSequence) × (s21 : StateSequence) × (follow u s1 ≡ ok (s12, status2))
      × (follow t s2 ≡ ok (s21, status1))
      × SameState s12 s21
are_dependent-commutes t u s s1 s2 status1 status2 on_t on_u k1 k2 snapshot h h1 h2 =
    let same = are_dependent_lem t u in
    follow-commutes t u s s1 s2 status1 status2 on_t on_u
      (declared_independent-AreApart (current s) t u on_t on_u k1 k2 (ground arith))
      (follow-StaysClear t u s s2 status2 k1 h2) (follow-StaysClear u t s s1 status1 k2 h1) snapshot
      h1 h2
