-- ===== src/Dpor/StackItem/Marks.antt =====
-- What the searched runners of a stack say about how much is left to search.
use native.Mathlib.Nat.{pow-succ'}
use deep_debug.Prelude.{
  ℕ, zero, suc, ◌+◌, ◌*◌, ◌^◌, ◌-◌, ◌≤◌, ◌<◌, ◌==◌, ==-eq, ◌≡◌, refl, sym, ap, ◌∙◌, true, false,
  List, [], ◌∷◌, ◌++◌, some, length, set, get_elem?, get_last?, contains, if◌then◌else◌, arith,
  Bool-cases, inl, inr,
}
use deep_debug.Dpor.StackItem.{StackItem, max_total_threads_in_program}

-- The searched runners of an item, and the number of its clocks.
abbrev pub Mark : Type 0
Mark = List ℕ × ℕ

abbrev pub mark : StackItem → Mark
mark s = (s.done_set, length s.per_runner_clocks)

abbrev pub marks : List StackItem → List Mark
marks [] = []
marks (s ∷ stack) = mark s ∷ marks stack

abbrev pub AllClocks : List Mark → Type 0
AllClocks [] = Unit {0}
AllClocks (m ∷ ms) = (m.1 ≡ max_total_threads_in_program) × AllClocks ms

-- The runners below `n` that are not done.
unfoldable pub open_below : ℕ → List ℕ → ℕ
open_below zero done = 0
open_below (suc n) done = (if contains n done then 0 else 1) + open_below n done

pub open_below-le : (n : ℕ) (done : List ℕ) → open_below n done ≤ n
unfolding open_below
open_below-le zero done = omega arith
open_below-le (suc n) done = ground (arith, open_below-le n done)

pub open_below_mono :
    (n : ℕ) (xs ys : List ℕ)
    → ((r : ℕ) → contains r xs ≡ true → contains r ys ≡ true)
    → open_below n ys ≤ open_below n xs
unfolding open_below
open_below_mono zero xs ys h = omega arith
open_below_mono (suc n) xs ys h = ground (arith, h n, open_below_mono n xs ys h)

-- A runner that becomes done is one less to search.
pub open_below-lt :
    (n r : ℕ) (xs ys : List ℕ)
    → r < n
    → contains r xs ≡ false
    → contains r ys ≡ true
    → ((q : ℕ) → contains q xs ≡ true → contains q ys ≡ true)
    → open_below n ys < open_below n xs
unfolding open_below
open_below-lt zero r xs ys b out in_ys h = elim b [ ]
open_below-lt (suc n) r xs ys b out in_ys h = elim (Bool-cases (r == n)) [
  | inl same ↦
      let here : r ≡ n = ==-eq r n same in
      ground (
        arith,
        ap (λ x. contains x xs) here,
        ap (λ x. contains x ys) here,
        open_below_mono n xs ys h,
      )
  | inr other ↦ ground (arith, h n, open_below-lt n r xs ys)
]

-- How many items a subtree of the search of height `h` may hold.
unfoldable pub width : ℕ → ℕ
width zero = 1
width (suc h) = (max_total_threads_in_program + 1) * width h

pub width_pos : (h : ℕ) → 0 < width h
unfolding width
width_pos zero = omega arith
width_pos (suc h) = omega (arith, width_pos h)

pub width-eq-pow : (h : ℕ) → width h ≡ 21 ^ h
unfolding width
width-eq-pow zero = refl
width-eq-pow (suc h) = ap (λ (x : ℕ). 21 * x) (width-eq-pow h) ∙ sym (pow-succ' 21 h)

-- What is left to search below a stack, at most, if a stack has `h` items at most.
unfoldable pub remaining : ℕ → List Mark → ℕ
unfolding width open_below
remaining h [] = width h
remaining zero (m ∷ ms) = 1
remaining (suc h) (m ∷ ms) = open_below max_total_threads_in_program m.0 * width h + remaining h ms

pub remaining_pos : (h : ℕ) (ms : List Mark) → 0 < remaining h ms
unfolding remaining
remaining_pos h [] = width_pos h
remaining_pos zero (m ∷ ms) = omega arith
remaining_pos (suc h) (m ∷ ms) = omega (arith, remaining_pos h ms)

times_mono : (a b p : ℕ) → a ≤ b → a * p ≤ b * p
times_mono a b p h = grind arith

times_step : (a b p : ℕ) → a < b → a * p + p ≤ b * p
times_step a b p h = grind arith

-- A new item takes no more than was left.
pub remaining-append :
    (h : ℕ) (ms : List Mark) (m : Mark)
    → length ms < h
    → remaining h (ms ++ m ∷ []) ≤ remaining h ms
unfolding remaining width
remaining-append zero ms m b = elim b [ ]
remaining-append (suc h) [] m b = omega (
  arith,
  times_mono (open_below max_total_threads_in_program m.0) max_total_threads_in_program (width h)
      (open_below-le max_total_threads_in_program m.0),
)
remaining-append (suc h) (n ∷ ms) m b =
    let rest : length ms < h = omega arith in omega (arith, remaining-append h ms m rest)

-- Runners that become done leave no more to search.
pub remaining-set :
    (h : ℕ) (ms : List Mark) (i : ℕ) (m m' : Mark)
    → get_elem? ms i ≡ some m
    → open_below max_total_threads_in_program m'.0 ≤ open_below max_total_threads_in_program m.0
    → remaining h (set ms i m') ≤ remaining h ms
unfolding remaining
remaining-set h [] i m m' e b = cc
remaining-set zero (n ∷ ms) zero m m' e b = omega arith
remaining-set zero (n ∷ ms) (suc i) m m' e b = omega arith
remaining-set (suc h) (n ∷ ms) zero m m' e b =
    let same : n ≡ m = cc in
    let more =
      times_mono (open_below max_total_threads_in_program m'.0)
        (open_below max_total_threads_in_program m.0) (width h) b in
    rw same (omega arith)
remaining-set (suc h) (n ∷ ms) (suc i) m m' e b = omega (arith, remaining-set h ms i m m' e b)

-- Once the items after it have gone, a runner of an item that becomes done leaves less to search.
pub remaining-lt :
    (h : ℕ) (xs : List Mark) (m m' : Mark) (rest : List Mark)
    → length xs < h
    → open_below max_total_threads_in_program m'.0 < open_below max_total_threads_in_program m.0
    → remaining h (xs ++ m' ∷ []) < remaining h (xs ++ m ∷ rest)
unfolding remaining
remaining-lt zero xs m m' rest b less = elim b [ ]
remaining-lt (suc h) [] m m' rest b less = omega (
  arith,
  times_step (open_below max_total_threads_in_program m'.0)
      (open_below max_total_threads_in_program m.0) (width h) less,
  remaining_pos h rest,
)
remaining-lt (suc h) (n ∷ xs) m m' rest b less =
    let shorter : length xs < h = omega arith in
    omega (arith, remaining-lt h xs m m' rest shorter less)

pub length-marks : (stack : List StackItem) → length (marks stack) ≡ length stack
length-marks [] = refl
length-marks (s ∷ stack) = ap suc (length-marks stack)

pub marks-append : (xs ys : List StackItem) → marks (xs ++ ys) ≡ marks xs ++ marks ys
marks-append [] ys = refl
marks-append (s ∷ xs) ys = ap (◌∷◌ (mark s)) (marks-append xs ys)

pub marks-set :
    (stack : List StackItem) (i : ℕ) (s : StackItem)
    → marks (set stack i s) ≡ set (marks stack) i (mark s)
marks-set [] i s = refl
marks-set (t ∷ stack) zero s = refl
marks-set (t ∷ stack) (suc i) s = ap (◌∷◌ (mark t)) (marks-set stack i s)

pub get_elem?-marks :
    (stack : List StackItem) (i : ℕ) (s : StackItem)
    → get_elem? stack i ≡ some s
    → get_elem? (marks stack) i ≡ some (mark s)
get_elem?-marks [] i s h = cc
get_elem?-marks (t ∷ stack) zero s h = let same : t ≡ s = cc in ap (λ x. some (mark x)) same
get_elem?-marks (t ∷ stack) (suc i) s h = get_elem?-marks stack i s h

-- The last item, by its index.
pub get_elem?-last {ℓ} :
    {A : Type ℓ} (xs : List A) (a : A)
    → get_last? xs ≡ some a
    → get_elem? xs (length xs - 1) ≡ some a
get_elem?-last [] a h = cc
get_elem?-last (x ∷ []) a h = h
get_elem?-last (x ∷ y ∷ xs) a h =
    let last : length (x ∷ y ∷ xs) - 1 ≡ suc (length (y ∷ xs) - 1) = omega arith in
    rw last (get_elem?-last (y ∷ xs) a h)

pub get_elem?-AllClocks :
    (ms : List Mark) (i : ℕ) (m : Mark)
    → AllClocks ms
    → get_elem? ms i ≡ some m
    → m.1 ≡ max_total_threads_in_program
get_elem?-AllClocks [] i m k h = cc
get_elem?-AllClocks (n ∷ ms) zero m (here, k) h = let same : n ≡ m = cc in rw (← same) here
get_elem?-AllClocks (n ∷ ms) (suc i) m (here, k) h = get_elem?-AllClocks ms i m k h

pub set-AllClocks :
    (ms : List Mark) (i : ℕ) (m : Mark)
    → AllClocks ms
    → m.1 ≡ max_total_threads_in_program
    → AllClocks (set ms i m)
set-AllClocks [] i m k e = tt
set-AllClocks (n ∷ ms) zero m (here, k) e = (e, k)
set-AllClocks (n ∷ ms) (suc i) m (here, k) e = (here, set-AllClocks ms i m k e)

pub append-AllClocks : (ms ns : List Mark) → AllClocks ms → AllClocks ns → AllClocks (ms ++ ns)
append-AllClocks [] ns k l = l
append-AllClocks (m ∷ ms) ns (here, k) l = (here, append-AllClocks ms ns k l)

pub prefix-AllClocks : (ms ns : List Mark) → AllClocks (ms ++ ns) → AllClocks ms
prefix-AllClocks [] ns k = tt
prefix-AllClocks (m ∷ ms) ns (here, k) = (here, prefix-AllClocks ms ns k)
