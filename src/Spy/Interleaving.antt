-- ===== src/Spy/Interleaving.antt =====
-- Threads of the program that run wrappers at the same time. The sections under `rec_list_lock`
-- exclude each other, so that a step is one section, or one other call.
use deep_debug.Prelude.{
  ℕ, zero, suc, ◌≡◌, ◌⊎◌, subst, Bool, List, [], ◌∷◌, ◌++◌, some, get_elem?, set, Result, ok,
}
use deep_debug.Coordinator.Registry.{Mailbox}
use deep_debug.Spy.Record.{RecordedObject, RecList, find_object}
use deep_debug.Spy.Thread.{thread_position}
use deep_debug.Spy.Distinct.{IsDistinct}
use deep_debug.Spy.Staying.{
  Stays, Becomes, HasSemaphoreAt, Stays-refl, Stays-trans, Stays-get_elem?, Stays-find_object,
  Stays-thread_position,
}
use deep_debug.Spy.Keeping.{Keeps}
use deep_debug.Spy.Wrappers.{record_thread-SectionKeeps, wrapper_of-Keeps}
use deep_debug.Spy.{
  Mode, Wrapper, returns, calls, under_lock, asks_restart_mode, writes, wakes_scheduler_and_waits,
  handles_restart, awakes_scheduler, awaits_scheduler, LibraryCall,
}
use deep_debug.Spy.Process.{record_thread}
use deep_debug.Spy.Announce.{Call, Caller, wrapper_of}

-- The list of records, and what each thread is in the middle of.
pub record Threads : Type 0 where
  pub head : RecList
  pub running : List Wrapper

abbrev pub go_on : ℕ → Wrapper → Threads → Threads
go_on i next s = record s { running = set s.running i next }

-- What a thread does next. The library may answer anything.
pub data Step (s : Threads) : Threads → Type 0 where
  starts_thread :
      (this_thread rid n : ℕ) (after : RecList)
      → record_thread this_thread rid s.head ≡ ok (after, n)
      → Step s (record { head = after; running = s.running ++ returns 0 ∷ [] })
  begins :
      (i rc : ℕ) (r : Caller) (mode : Mode) (call : Call)
      → get_elem? s.running i ≡ some (returns rc)
      → Step s (go_on i (wrapper_of r mode call) s)
  section :
      (i n : ℕ) (f : RecList → Result (RecList × ℕ)) (next : ℕ → Wrapper) (after : RecList)
      → get_elem? s.running i ≡ some (under_lock f next)
      → f s.head ≡ ok (after, n)
      → Step s (record { head = after; running = set s.running i (next n) })
  answers :
      (i rc : ℕ) (call : LibraryCall) (next : ℕ → Wrapper)
      → get_elem? s.running i ≡ some (calls call next)
      → Step s (go_on i (next rc) s)
  learns_mode :
      (i : ℕ) (b : Bool) (next : Bool → Wrapper)
      → get_elem? s.running i ≡ some (asks_restart_mode next)
      → Step s (go_on i (next b) s)
  stores :
      (i : ℕ) (store : Mailbox → Mailbox) (next : Wrapper)
      → get_elem? s.running i ≡ some (writes store next)
      → Step s (go_on i next s)
  is_scheduled :
      (i : ℕ) (next : Wrapper)
      → get_elem? s.running i ≡ some (wakes_scheduler_and_waits next)
      → Step s (go_on i next s)
  is_restarted :
      (i : ℕ) (next : Wrapper)
      → get_elem? s.running i ≡ some (handles_restart next)
      → Step s (go_on i next s)
  goes_ahead :
      (i : ℕ) (next : Wrapper)
      → get_elem? s.running i ≡ some (awakes_scheduler next)
      → Step s (go_on i next s)
  is_resumed :
      (i : ℕ) (next : Wrapper)
      → get_elem? s.running i ≡ some (awaits_scheduler next)
      → Step s (go_on i next s)

pub data Runs (s : Threads) : Threads → Type 0 where
  not_yet : Runs s s
  then_step : {t u : Threads} → Runs s t → Step t u → Runs s u

AllKeep : List Wrapper → Type 0
AllKeep [] = Unit {0}
AllKeep (w ∷ ws) = Keeps w × AllKeep ws

at-Keeps :
    (ws : List Wrapper) (i : ℕ) (w : Wrapper) → AllKeep ws → get_elem? ws i ≡ some w → Keeps w
unfolding AllKeep
at-Keeps [] i w k h = cc
at-Keeps (x ∷ ws) zero w (here, k) h = let same : x ≡ w = cc in subst Keeps same here
at-Keeps (x ∷ ws) (suc i) w (here, k) h = at-Keeps ws i w k h

set-AllKeep :
    (ws : List Wrapper) (i : ℕ) (w : Wrapper) → AllKeep ws → Keeps w → AllKeep (set ws i w)
unfolding AllKeep
set-AllKeep [] i w k new = tt
set-AllKeep (x ∷ ws) zero w (here, k) new = (new, k)
set-AllKeep (x ∷ ws) (suc i) w (here, k) new = (here, set-AllKeep ws i w k new)

append-AllKeep : (ws : List Wrapper) (w : Wrapper) → AllKeep ws → Keeps w → AllKeep (ws ++ w ∷ [])
unfolding AllKeep
append-AllKeep [] w k new = (new, tt)
append-AllKeep (x ∷ ws) w (here, k) new = (here, append-AllKeep ws w k new)

IsSafe : Threads → Type 0
IsSafe s = IsDistinct s.head × AllKeep s.running

Step-IsSafe : (s t : Threads) → IsSafe s → Step s t → IsSafe t
unfolding IsSafe
Step-IsSafe s t (d, k) (starts_thread this_thread rid n after h) = (
  (record_thread-SectionKeeps this_thread rid s.head after n d h).0,
  append-AllKeep s.running (returns 0) k tt,
)
Step-IsSafe s t (d, k) (begins i rc r mode call h) =
    (d, set-AllKeep s.running i (wrapper_of r mode call) k (wrapper_of-Keeps r mode call))
Step-IsSafe s t (d, k) (section i n f next after h h') =
    let (kept, rest) = at-Keeps s.running i (under_lock f next) k h in
    ((kept s.head after n d h').0, set-AllKeep s.running i (next n) k (rest n))
Step-IsSafe s t (d, k) (answers i rc call next h) =
    (d, set-AllKeep s.running i (next rc) k (at-Keeps s.running i (calls call next) k h rc))
Step-IsSafe s t (d, k) (learns_mode i b next h) =
    (d, set-AllKeep s.running i (next b) k (at-Keeps s.running i (asks_restart_mode next) k h b))
Step-IsSafe s t (d, k) (stores i store next h) =
    (d, set-AllKeep s.running i next k (at-Keeps s.running i (writes store next) k h))
Step-IsSafe s t (d, k) (is_scheduled i next h) =
    (d, set-AllKeep s.running i next k (at-Keeps s.running i (wakes_scheduler_and_waits next) k h))
Step-IsSafe s t (d, k) (is_restarted i next h) =
    (d, set-AllKeep s.running i next k (at-Keeps s.running i (handles_restart next) k h))
Step-IsSafe s t (d, k) (goes_ahead i next h) =
    (d, set-AllKeep s.running i next k (at-Keeps s.running i (awakes_scheduler next) k h))
Step-IsSafe s t (d, k) (is_resumed i next h) =
    (d, set-AllKeep s.running i next k (at-Keeps s.running i (awaits_scheduler next) k h))

Runs-IsSafe : (s t : Threads) → IsSafe s → Runs s t → IsSafe t
Runs-IsSafe s t safe not_yet = safe
Runs-IsSafe s t safe (then_step {t = u} runs step) =
    Step-IsSafe u t (Runs-IsSafe s u safe runs) step

-- However threads interleave that start and run the wrappers, in whatever modes and whatever the
-- library answers, no two records are of the same object, where a thread record has no location.
pub Runs-IsDistinct :
    (t : Threads) → Runs (record { head = []; running = [] }) t → IsDistinct t.head
unfolding IsSafe AllKeep
Runs-IsDistinct t runs = (Runs-IsSafe (record { head = []; running = [] }) t (tt, tt) runs).0

Step-Stays : (s t : Threads) → IsSafe s → Step s t → Stays s.head t.head
unfolding IsSafe
Step-Stays s t (d, k) (starts_thread this_thread rid n after h) =
    (record_thread-SectionKeeps this_thread rid s.head after n d h).1
Step-Stays s t (d, k) (section i n f next after h h') =
    ((at-Keeps s.running i (under_lock f next) k h).0 s.head after n d h').1
Step-Stays s t (d, k) (begins i rc r mode call h) = Stays-refl s.head
Step-Stays s t (d, k) (answers i rc call next h) = Stays-refl s.head
Step-Stays s t (d, k) (learns_mode i b next h) = Stays-refl s.head
Step-Stays s t (d, k) (stores i store next h) = Stays-refl s.head
Step-Stays s t (d, k) (is_scheduled i next h) = Stays-refl s.head
Step-Stays s t (d, k) (is_restarted i next h) = Stays-refl s.head
Step-Stays s t (d, k) (goes_ahead i next h) = Stays-refl s.head
Step-Stays s t (d, k) (is_resumed i next h) = Stays-refl s.head

safe-Stays : (s t : Threads) → IsSafe s → Runs s t → Stays s.head t.head
safe-Stays s t safe not_yet = Stays-refl s.head
safe-Stays s t safe (then_step {t = u} runs step) =
    Stays-trans s.head u.head t.head (safe-Stays s u safe runs)
      (Step-Stays u t (Runs-IsSafe s u safe runs) step)

-- What later steps leave of the records.
pub record KeepsRecords (head after : RecList) : Type 0 where
  pub nodes :
      (i : ℕ) (node : RecordedObject)
      → get_elem? head i ≡ some node
      → (node' : RecordedObject) × (get_elem? after i ≡ some node')
        × (node'.location ≡ node.location)
        × Becomes node.state node'.state
  pub objects : (addr i : ℕ) → find_object addr head ≡ some i → find_object addr after ≡ some i
  pub threads :
      (thrd i : ℕ)
      → thread_position thrd head ≡ some i
      → (thread_position thrd after ≡ some i) ⊎ HasSemaphoreAt i after

-- However threads interleave, in every later state a record is at the position at which it was: the
-- record there has the same location, and is of the same kind and, if it is of a thread, of the
-- same thread, or else of a semaphore; the address of an object is found at the position at which
-- it was found, and so is a thread, or else the record there is of a semaphore.
pub Runs-Stays :
    (s t : Threads)
    → Runs (record { head = []; running = [] }) s
    → Runs s t
    → KeepsRecords s.head t.head
unfolding IsSafe AllKeep
Runs-Stays s t before runs =
    let stays =
      safe-Stays s t (Runs-IsSafe (record { head = []; running = [] }) s (tt, tt) before) runs in
    record {
      nodes = λ i node found. Stays-get_elem? s.head t.head i node stays found;
      objects = λ addr i found. Stays-find_object s.head t.head addr i stays found;
      threads = λ thrd i found. Stays-thread_position s.head t.head thrd i stays found;
    }
