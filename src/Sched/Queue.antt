-- ===== src/Sched/Queue.antt =====
-- The ready queue of kernel/sched.c as a list of processes, for `insert_to_ready_queue`.
use testcode.Base.{
  ℕ, zero, suc, ◌+◌, ◌<◌, ◌≡◌, ◌≢◌, refl, sym, ◌∙◌, Option, none, some, true, false, List, [], ◌∷◌,
  ◌++◌, length, arith, All, All-append, mem, mem-tail, ne_of_mem, Distinct, Distinct-snoc,
  length-le_of_Distinct, ◌==◌, if◌then◌else◌, Bool-cases, inl, inr,
}
use mathlib.Core.Path.{subst}
use mathlib.Core.Bool.{false≢true}
use testcode.Machine.Returns.{Returns, returns}
use testcode.Machine.{Kernel, ProcStatus, ok, nproc}
use testcode.Sched.{insert_loop, insert_to_ready_queue, append_after, start_queue}

-- From `h` the links lead through `xs` to the null pointer.
abbrev pub Links : (ℕ → Option ℕ) → Option ℕ → List ℕ → Type 0
Links next h [] = h ≡ none
Links next h (x ∷ xs) = (h ≡ some x) × Links next (next x) xs

abbrev pub next_of : Kernel → ℕ → Option ℕ
next_of s i = (s.procs i).queue_next

-- The processes `xs` wait, the first to run first.
pub record IsQueue (s : Kernel) (xs : List ℕ) : Type 0 where
  pub links : Links (next_of s) s.ready_queue_head xs
  pub distinct : Distinct xs
  pub below : All (λ i. i < nproc) xs
  pub ready : All (λ i. (s.procs i).status ≡ ProcStatus.ready) xs

-- The state after the queue ends in `proc`.
pub record Inserted (s : Kernel) (proc : ℕ) (xs : List ℕ) (s' : Kernel) : Type 0 where
  pub queue : IsQueue s' (xs ++ (proc ∷ []))
  pub others : (i : ℕ) → i ≢ proc → (s'.procs i).status ≡ (s.procs i).status
  pub mem : s'.mem ≡ s.mem
  pub current : s'.current ≡ s.current
  pub tick : (i : ℕ) → (s'.procs i).tick_count ≡ (s.procs i).tick_count
  pub trapframe : (i : ℕ) → (s'.procs i).trapframe ≡ (s.procs i).trapframe

last_of : ℕ → List ℕ → ℕ
last_of p [] = p
last_of p (x ∷ xs) = last_of x xs

mem-last_of : (p : ℕ) (xs : List ℕ) → mem (last_of p xs) (p ∷ xs) ≡ true
unfolding last_of
mem-last_of p [] = ground arith
mem-last_of p (x ∷ xs) = mem-tail (last_of x xs) p (x ∷ xs) (mem-last_of x xs)

abbrev next_after : (q proc : ℕ) → (ℕ → Option ℕ) → ℕ → Option ℕ
next_after q proc next x = if x == proc then none else if x == q then some proc else next x

Links-append :
    (next : ℕ → Option ℕ) (p proc : ℕ) (xs : List ℕ)
    → Links next (next p) xs
    → Distinct (p ∷ xs)
    → mem proc (p ∷ xs) ≡ false
    → Links (next_after (last_of p xs) proc next) (some p) (p ∷ (xs ++ (proc ∷ [])))
unfolding last_of
Links-append next p proc [] l d out = (refl, (ground arith, ground arith))
Links-append next p proc (x ∷ xs) l d out =
    let inner : mem proc (x ∷ xs) ≡ false = ground arith in
    let apart : p ≢ last_of x xs =
      λ same. ne_of_mem (last_of x xs) p (x ∷ xs) (mem-last_of x xs) d.0 (sym same) in
    let step : next_after (last_of x xs) proc next p ≡ some x = ground (arith, l.0, apart) in
    (refl, rw step (Links-append next x proc xs l.1 d.1 inner))

insert_loop-append :
    (n p proc : ℕ) (xs : List ℕ) (s : Kernel)
    → Links (next_of s) (next_of s p) xs
    → mem proc (p ∷ xs) ≡ false
    → length xs < n
    → insert_loop n p proc s ≡ ok tt (append_after (last_of p xs) proc s)
unfolding insert_loop last_of
insert_loop-append zero p proc xs s l out fuel = absurd (omega arith)
insert_loop-append (suc n) p proc [] s l out fuel =
    let ne : (p == proc) ≡ false = ground arith in rw (l, ne)
insert_loop-append (suc n) p proc (x ∷ xs) s l out fuel =
    let ne : (p == proc) ≡ false = ground arith in
    rw (l.0, ne) (insert_loop-append n x proc xs s l.1 (ground arith) (omega arith))

-- `proc` is found on the way: nothing changes.
insert_loop_again :
    (n p proc : ℕ) (xs : List ℕ) (s : Kernel)
    → Links (next_of s) (next_of s p) xs
    → mem proc (p ∷ xs) ≡ true
    → length xs < n
    → insert_loop n p proc s ≡ ok tt s
unfolding insert_loop
insert_loop_again zero p proc xs s l i fuel = absurd (omega arith)
insert_loop_again (suc n) p proc [] s l i fuel =
    let same : (p == proc) ≡ true = ground arith in rw (l, same)
insert_loop_again (suc n) p proc (x ∷ xs) s l i fuel = rw l.0 (elim (Bool-cases (p == proc)) [
  | inl e ↦ rw e
  | inr e ↦ rw e (insert_loop_again n x proc xs s l.1 (ground arith) (omega arith))
])

pub Links-same :
    (next next' : ℕ → Option ℕ) (h : Option ℕ) (xs : List ℕ)
    → ((i : ℕ) → next' i ≡ next i)
    → Links next h xs
    → Links next' h xs
Links-same next next' h [] same l = l
Links-same next next' h (x ∷ xs) same l =
    (l.0, Links-same next next' (next' x) xs same (subst (λ n. Links next n xs) (sym (same x)) l.1))

pub All-mono : {P Q : ℕ → Type 0} (xs : List ℕ) → ((x : ℕ) → P x → Q x) → All P xs → All Q xs
All-mono [] change h = tt
All-mono (x ∷ xs) change h = (change x h.0, All-mono xs change h.1)

pub All-change :
    {P Q : ℕ → Type 0} (a : ℕ) (xs : List ℕ)
    → ((x : ℕ) → x ≢ a → P x → Q x)
    → mem a xs ≡ false
    → All P xs
    → All Q xs
All-change a [] change out h = tt
All-change a (x ∷ xs) change out h =
    (change x (λ same. ground (arith, same)) h.0, All-change a xs change (ground arith) h.1)

-- The queue that `append_after` makes, field by field.
module _ (s : Kernel) (q proc : ℕ) where
  status_others : (i : ℕ) → i ≢ proc → ((append_after q proc s).procs i).status ≡ (s.procs i).status
  status_others i ne = ground arith

  status_proc : ((append_after q proc s).procs proc).status ≡ ProcStatus.ready
  status_proc = ground arith

  next_all : (i : ℕ) → next_of (append_after q proc s) i ≡ next_after q proc (next_of s) i
  next_all i = ground arith

  tick_all : (i : ℕ) → ((append_after q proc s).procs i).tick_count ≡ (s.procs i).tick_count
  tick_all i = ground arith

  trapframe_all : (i : ℕ) → ((append_after q proc s).procs i).trapframe ≡ (s.procs i).trapframe
  trapframe_all i = ground arith

insert_empty :
    (proc : ℕ) (s : Kernel)
    → s.ready_queue_head ≡ none
    → insert_to_ready_queue proc s ≡ ok tt (start_queue proc s)
unfolding insert_to_ready_queue
insert_empty proc s e = ground arith

insert_nonempty :
    (p proc : ℕ) (s : Kernel)
    → s.ready_queue_head ≡ some p
    → insert_to_ready_queue proc s ≡ insert_loop (nproc + 1) p proc s
unfolding insert_to_ready_queue
insert_nonempty p proc s e = ground arith

-- If the ready queue stands for a list of processes and `proc` is one of the 32 and not in it,
-- `insert_to_ready_queue` returns with a queue that stands for the list with `proc` at its end;
-- memory, the current process, and the tick counts, trap frames and the status of the others
-- stay.
pub insert_to_ready_queue-Inserted :
    (proc : ℕ) (xs : List ℕ) (s : Kernel)
    → IsQueue s xs
    → proc < nproc
    → mem proc xs ≡ false
    → Returns (λ _. Inserted s proc xs) (insert_to_ready_queue proc s)
insert_to_ready_queue-Inserted proc [] s v h out = rw (insert_empty proc s v.links) (
    returns (record {
      queue = record {
        links = (refl, ground arith);
        distinct = (refl, tt);
        below = (h, tt);
        ready = (ground arith, tt);
      };
      others = λ i ne. ground arith;
      mem = refl;
      current = refl;
      tick = λ i. ground arith;
      trapframe = λ i. ground arith;
    }))
insert_to_ready_queue-Inserted proc (x ∷ xs) s v h out =
    let few = length-le_of_Distinct nproc (x ∷ xs) v.distinct v.below in
    let done = insert_loop-append (nproc + 1) x proc xs s v.links.1 out (omega arith) in
    rw (insert_nonempty x proc s v.links.0, done)
      (returns (record {
        queue = record {
          links =
              subst
                (λ h'.
                  Links (next_of (append_after (last_of x xs) proc s)) h' (x ∷ (xs ++ (proc ∷ []))))
                (sym v.links.0)
                (Links-same (next_after (last_of x xs) proc (next_of s))
                  (next_of (append_after (last_of x xs) proc s)) (some x) (x ∷ (xs ++ (proc ∷ [])))
                  (next_all s (last_of x xs) proc)
                  (Links-append (next_of s) x proc xs v.links.1 v.distinct out));
          distinct = Distinct-snoc (x ∷ xs) proc v.distinct out;
          below = All-append (λ i. i < nproc) (x ∷ xs) (proc ∷ []) v.below (h, tt);
          ready =
              All-append
                (λ i. ((append_after (last_of x xs) proc s).procs i).status ≡ ProcStatus.ready)
                (x ∷ xs) (proc ∷ [])
                (All-change proc (x ∷ xs) (λ i ne r. status_others s (last_of x xs) proc i ne ∙ r)
                  out v.ready)
                (status_proc s (last_of x xs) proc, tt);
        };
        others = status_others s (last_of x xs) proc;
        mem = refl;
        current = refl;
        tick = tick_all s (last_of x xs) proc;
        trapframe = trapframe_all s (last_of x xs) proc;
      }))

-- If the ready queue stands for a list of processes with `proc` in it, `insert_to_ready_queue`
-- returns and changes nothing.
pub insert_to_ready_queue_again :
    (proc : ℕ) (xs : List ℕ) (s : Kernel)
    → IsQueue s xs
    → mem proc xs ≡ true
    → insert_to_ready_queue proc s ≡ ok tt s
insert_to_ready_queue_again proc [] s v i = absurd (false≢true i)
insert_to_ready_queue_again proc (x ∷ xs) s v i =
    let few = length-le_of_Distinct nproc (x ∷ xs) v.distinct v.below in
    insert_nonempty x proc s v.links.0
    ∙ (insert_loop_again (nproc + 1) x proc xs s v.links.1 i (omega arith))
