-- ===== src/Util/ThreadPool/Order.antt =====
-- util/ThreadPool.cpp: tasks start in the order in which they are submitted, and nobody sleeps when
-- Shutdown has notified the workers.
use distributed_key_value_st.Base.{
  ℕ, zero, suc, ◌+◌, ◌<◌, ◌≡◌, refl, sym, ap, ◌∙◌, ◌++◌, true, List, [], ◌∷◌, length, arith,
  if◌then◌else◌, ◌==◌, append_assoc, length-append,
}
use distributed_key_value_st.Util.ThreadPool.{
  Worker, waits, sleeps, holds, runs, returned, ThreadPool, waiting, new, Work, take_task, count_up,
  finish_task, leave, wake_all, Step, work, fall_asleep, wake_up, submit, shut_down, notify_all,
  Run, here, next,
}

module _ {ℓ} {A : Type ℓ} (f : A → ℕ) where
  abbrev pub total : List A → ℕ
  total [] = 0
  total (x ∷ xs) = f x + total xs

  pub total-append : (xs ys : List A) → total (xs ++ ys) ≡ total xs + total ys
  total-append [] ys = omega arith
  total-append (x ∷ xs) ys = omega (arith, total-append xs ys)

-- How often a task is in a list, and in the hands of the workers.
abbrev pub is_task : ℕ → ℕ → ℕ
is_task t x = if x == t then 1 else 0

abbrev pub has_task : ℕ → Worker → ℕ
has_task t waits = 0
has_task t sleeps = 0
has_task t (holds x) = is_task t x
has_task t (runs x) = is_task t x
has_task t returned = 0

abbrev pub is_running : Worker → ℕ
is_running waits = 0
is_running sleeps = 0
is_running (holds x) = 0
is_running (runs x) = 1
is_running returned = 0

abbrev pub has_returned : Worker → ℕ
has_returned waits = 0
has_returned sleeps = 0
has_returned (holds x) = 0
has_returned (runs x) = 0
has_returned returned = 1

abbrev pub is_asleep : Worker → ℕ
is_asleep waits = 0
is_asleep sleeps = 1
is_asleep (holds x) = 0
is_asleep (runs x) = 0
is_asleep returned = 0

-- Tasks start in their order, each one that has started is finished or in a worker's hands, the
-- counter is that of the running workers, a worker has only returned when all tasks were taken, and none
-- sleeps when Shutdown has notified them.
pub record InOrder (n : ℕ) (p : ThreadPool) : Type 0 where
  pub fifo : p.started ++ p.queue ≡ p.submitted
  pub kept :
      (t : ℕ)
      → total (is_task t) p.started ≡ total (is_task t) p.finished + total (has_task t) p.workers
  pub counted : p.active ≡ total is_running p.workers
  pub all_taken : 0 < total has_returned p.workers → (p.stop ≡ true) × (p.queue ≡ [])
  pub awake : p.notified ≡ true → (p.stop ≡ true) × (total is_asleep p.workers ≡ 0)
  pub same_workers : length p.workers ≡ n

total-waiting : (f : Worker → ℕ) (n : ℕ) → f waits ≡ 0 → total f (waiting n) ≡ 0
unfolding waiting
total-waiting f zero h = refl
total-waiting f (suc n) h = omega (arith, total-waiting f n h)

length-waiting : (n : ℕ) → length (waiting n) ≡ n
unfolding waiting
length-waiting zero = refl
length-waiting (suc n) = omega (arith, length-waiting n)

new-InOrder : (n : ℕ) → InOrder n (new n)
unfolding new
new-InOrder n = record {
  fifo = refl;
  kept = λ t. omega (arith, total-waiting (has_task t) n refl);
  counted = omega (arith, total-waiting is_running n refl);
  all_taken = λ h. absurd (omega (arith, total-waiting has_returned n refl));
  awake = λ h. absurd (cc (h));
  same_workers = length-waiting n;
}

-- A worker goes from one place to another.
pub moved :
    (f : Worker → ℕ) (ws before after : List Worker) (w w' : Worker)
    → ws ≡ before ++ w ∷ after
    → total f (before ++ w' ∷ after) + f w ≡ total f ws + f w'
moved f ws before after w w' h =
    omega
      (arith, ap (total f) h, total-append f before (w ∷ after), total-append f before (w' ∷ after))

length-moved :
    (ws before after : List Worker) (w w' : Worker)
    → ws ≡ before ++ w ∷ after
    → length (before ++ w' ∷ after) ≡ length ws
length-moved ws before after w w' h =
    omega (arith, ap length h, length-append before (w ∷ after), length-append before (w' ∷ after))

pub Work-InOrder :
    (n : ℕ) {can_return : ThreadPool → ℕ → Type 0} {p q : ThreadPool}
    → InOrder n p
    → Work can_return p q
    → InOrder n q
Work-InOrder n {p = p} i (take_task before after task queue ws q) = record {
  fifo = append_assoc p.started (task ∷ []) queue ∙ ap (λ l. p.started ++ l) (sym q) ∙ i.fifo;
  kept = λ t. omega (
    arith,
    i.kept t,
    total-append (is_task t) p.started (task ∷ []),
    moved (has_task t) p.workers before after waits (holds task) ws,
  );
  counted = omega (arith, i.counted, moved is_running p.workers before after waits (holds task) ws);
  all_taken = λ h.
      let some_returned : 0 < total has_returned p.workers =
        omega (arith, moved has_returned p.workers before after waits (holds task) ws) in
      absurd (cc ((i.all_taken some_returned).1, q));
  awake = λ h.
      let (stopped', none) = i.awake h in
      (stopped', omega (arith, none, moved is_asleep p.workers before after waits (holds task) ws));
  same_workers = length-moved p.workers before after waits (holds task) ws ∙ i.same_workers;
}
Work-InOrder n {p = p} i (count_up before after task ws) = record {
  fifo = i.fifo;
  kept = λ t.
      omega
        (arith, i.kept t, moved (has_task t) p.workers before after (holds task) (runs task) ws);
  counted =
      omega (arith, i.counted, moved is_running p.workers before after (holds task) (runs task) ws);
  all_taken = λ h.
      i.all_taken
        (omega (arith, moved has_returned p.workers before after (holds task) (runs task) ws));
  awake = λ h.
      let (stopped', none) = i.awake h in
      (
        stopped',
        omega (arith, none, moved is_asleep p.workers before after (holds task) (runs task) ws),
      );
  same_workers = length-moved p.workers before after (holds task) (runs task) ws ∙ i.same_workers;
}
Work-InOrder n {p = p} i (finish_task before after task ws back) = record {
  fifo = i.fifo;
  kept = λ t. omega (
    arith,
    i.kept t,
    total-append (is_task t) p.finished (task ∷ []),
    moved (has_task t) p.workers before after (runs task) waits ws,
  );
  counted = omega (arith, i.counted, moved is_running p.workers before after (runs task) waits ws);
  all_taken = λ h.
      i.all_taken (omega (arith, moved has_returned p.workers before after (runs task) waits ws));
  awake = λ h.
      let (stopped', none) = i.awake h in
      (stopped', omega (arith, none, moved is_asleep p.workers before after (runs task) waits ws));
  same_workers = length-moved p.workers before after (runs task) waits ws ∙ i.same_workers;
}
Work-InOrder n {p = p} i (leave before after ws stopped empty) = record {
  fifo = i.fifo;
  kept = λ t. omega (arith, i.kept t, moved (has_task t) p.workers before after waits returned ws);
  counted = omega (arith, i.counted, moved is_running p.workers before after waits returned ws);
  all_taken = λ h. (stopped, empty);
  awake = λ h.
      let (stopped', none) = i.awake h in
      (stopped', omega (arith, none, moved is_asleep p.workers before after waits returned ws));
  same_workers = length-moved p.workers before after waits returned ws ∙ i.same_workers;
}

total-wake_all :
    (f : Worker → ℕ) → f sleeps ≡ f waits → (ws : List Worker) → total f (wake_all ws) ≡ total f ws
unfolding wake_all
total-wake_all f h [] = refl
total-wake_all f h (sleeps ∷ ws) = omega (arith, h, total-wake_all f h ws)
total-wake_all f h (waits ∷ ws) = omega (arith, total-wake_all f h ws)
total-wake_all f h (holds t ∷ ws) = omega (arith, total-wake_all f h ws)
total-wake_all f h (runs t ∷ ws) = omega (arith, total-wake_all f h ws)
total-wake_all f h (returned ∷ ws) = omega (arith, total-wake_all f h ws)

asleep-wake_all : (ws : List Worker) → total is_asleep (wake_all ws) ≡ 0
unfolding wake_all
asleep-wake_all [] = refl
asleep-wake_all (sleeps ∷ ws) = omega (arith, asleep-wake_all ws)
asleep-wake_all (waits ∷ ws) = omega (arith, asleep-wake_all ws)
asleep-wake_all (holds t ∷ ws) = omega (arith, asleep-wake_all ws)
asleep-wake_all (runs t ∷ ws) = omega (arith, asleep-wake_all ws)
asleep-wake_all (returned ∷ ws) = omega (arith, asleep-wake_all ws)

length-wake_all : (ws : List Worker) → length (wake_all ws) ≡ length ws
unfolding wake_all
length-wake_all [] = refl
length-wake_all (sleeps ∷ ws) = omega (arith, length-wake_all ws)
length-wake_all (waits ∷ ws) = omega (arith, length-wake_all ws)
length-wake_all (holds t ∷ ws) = omega (arith, length-wake_all ws)
length-wake_all (runs t ∷ ws) = omega (arith, length-wake_all ws)
length-wake_all (returned ∷ ws) = omega (arith, length-wake_all ws)

Step-InOrder :
    (n : ℕ) {can_return : ThreadPool → ℕ → Type 0} {p q : ThreadPool}
    → InOrder n p
    → Step can_return p q
    → InOrder n q
Step-InOrder n i (work w) = Work-InOrder n i w
Step-InOrder n {p = p} i (fall_asleep before after ws runs' empty) = record {
  fifo = i.fifo;
  kept = λ t. omega (arith, i.kept t, moved (has_task t) p.workers before after waits sleeps ws);
  counted = omega (arith, i.counted, moved is_running p.workers before after waits sleeps ws);
  all_taken =
      λ h. i.all_taken (omega (arith, moved has_returned p.workers before after waits sleeps ws));
  awake = λ h. absurd (cc ((i.awake h).0, runs'));
  same_workers = length-moved p.workers before after waits sleeps ws ∙ i.same_workers;
}
Step-InOrder n {p = p} i (wake_up before after ws) = record {
  fifo = i.fifo;
  kept = λ t. omega (arith, i.kept t, moved (has_task t) p.workers before after sleeps waits ws);
  counted = omega (arith, i.counted, moved is_running p.workers before after sleeps waits ws);
  all_taken =
      λ h. i.all_taken (omega (arith, moved has_returned p.workers before after sleeps waits ws));
  awake = λ h.
      let (stopped', none) = i.awake h in
      (stopped', omega (arith, none, moved is_asleep p.workers before after sleeps waits ws));
  same_workers = length-moved p.workers before after sleeps waits ws ∙ i.same_workers;
}
Step-InOrder n {p = p} i (notify_all stopped) = record {
  fifo = i.fifo;
  kept = λ t. omega (arith, i.kept t, total-wake_all (has_task t) refl p.workers);
  counted = omega (arith, i.counted, total-wake_all is_running refl p.workers);
  all_taken = λ h. i.all_taken (omega (arith, total-wake_all has_returned refl p.workers));
  awake = λ h. (stopped, asleep-wake_all p.workers);
  same_workers = length-wake_all p.workers ∙ i.same_workers;
}
Step-InOrder n {p = p} i (submit task runs') = record {
  fifo = sym (append_assoc p.started p.queue (task ∷ [])) ∙ ap (λ l. l ++ task ∷ []) i.fifo;
  kept = i.kept;
  counted = i.counted;
  all_taken = λ h. absurd (cc ((i.all_taken h).0, runs'));
  awake = λ h. absurd (cc ((i.awake h).0, runs'));
  same_workers = i.same_workers;
}
Step-InOrder n {p = p} i shut_down = record {
  fifo = i.fifo;
  kept = i.kept;
  counted = i.counted;
  all_taken = λ h. (refl, (i.all_taken h).1);
  awake = λ h. (refl, (i.awake h).1);
  same_workers = i.same_workers;
}

-- A pool of n workers, after any run: tasks have started in the order in which they were submitted, the
-- others are in the queue in this order; each task that has started has finished or is in the hands of
-- a worker; the counter of active workers is right; and a worker has only returned when the pool is
-- stopped and all tasks are taken.
pub Run-InOrder :
    (n : ℕ) {can_return : ThreadPool → ℕ → Type 0} {p : ThreadPool}
    → Run can_return (new n) p
    → InOrder n p
Run-InOrder n here = new-InOrder n
Run-InOrder n (next r s) = Step-InOrder n (Run-InOrder n r) s
