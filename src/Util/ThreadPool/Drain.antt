-- ===== src/Util/ThreadPool/Drain.antt =====
-- util/ThreadPool.cpp: Shutdown waits for all tasks.
use distributed_key_value_st.Base.{
  ℕ, suc, ◌+◌, ◌*◌, ◌≤◌, ◌<◌, ◌≡◌, ◌⊎◌, inl, inr, refl, sym, ap, ◌∙◌, ◌++◌, true, List, [], ◌∷◌,
  length, arith, append_nil,
}
use distributed_key_value_st.Util.ThreadPool.{
  Worker, waits, sleeps, holds, runs, returned, ThreadPool, new, Work, take_task, count_up,
  finish_task, leave, Run, Works, none_yet, one_more, is_joined,
}
use distributed_key_value_st.Util.ThreadPool.Order.{
  total, is_task, has_task, is_running, has_returned, is_asleep, InOrder, moved, Work-InOrder,
  Run-InOrder,
}

-- How many steps of workers are left at most.
abbrev rank : Worker → ℕ
rank waits = 1
rank sleeps = 0
rank (holds x) = 3
rank (runs x) = 2
rank returned = 0

abbrev pub work_left : ThreadPool → ℕ
work_left p = 3 * length p.queue + total rank p.workers

Work-work_left :
    {can_return : ThreadPool → ℕ → Type 0} {p q : ThreadPool}
    → Work can_return p q
    → work_left q + 1 ≤ work_left p
Work-work_left {p = p} (take_task before after task queue ws q) =
    omega (arith, ap length q, moved rank p.workers before after waits (holds task) ws)
Work-work_left {p = p} (count_up before after task ws) =
    omega (arith, moved rank p.workers before after (holds task) (runs task) ws)
Work-work_left {p = p} (finish_task before after task ws back) =
    omega (arith, moved rank p.workers before after (runs task) waits ws)
Work-work_left {p = p} (leave before after ws stopped empty) =
    omega (arith, moved rank p.workers before after waits returned ws)

Works-work_left :
    {can_return : ThreadPool → ℕ → Type 0} {p : ThreadPool} {n : ℕ} {q : ThreadPool}
    → Works can_return p n q
    → work_left q + n ≤ work_left p
Works-work_left none_yet = omega arith
Works-work_left (one_more ws w) = omega (arith, Works-work_left ws, Work-work_left w)

-- A worker that is neither asleep nor returned, in its place.
abbrev Unreturned : List Worker → Type 0
Unreturned ws =
    (before : List Worker) × (after : List Worker) × ((ws ≡ before ++ waits ∷ after)
      ⊎ ((t : ℕ) × ((ws ≡ before ++ holds t ∷ after) ⊎ (ws ≡ before ++ runs t ∷ after))))

find-Unreturned :
    (ws : List Worker) → total is_asleep ws ≡ 0 → (is_joined ws ≡ true) ⊎ Unreturned ws
unfolding is_joined
find-Unreturned [] h = inl refl
find-Unreturned (waits ∷ ws) h = inr ([], ws, inl refl)
find-Unreturned (sleeps ∷ ws) h = absurd (omega (arith, h))
find-Unreturned (holds t ∷ ws) h = inr ([], ws, inr (t, inl refl))
find-Unreturned (runs t ∷ ws) h = inr ([], ws, inr (t, inr refl))
find-Unreturned (returned ∷ ws) h = elim (find-Unreturned ws (omega (arith, h))) [
  | inl all ↦ inl all
  | inr (before, after, inl e) ↦ inr (returned ∷ before, after, inl (ap (◌∷◌ returned) e))
  | inr (before, after, inr (t, inl e)) ↦
      inr (returned ∷ before, after, inr (t, inl (ap (◌∷◌ returned) e)))
  | inr (before, after, inr (t, inr e)) ↦
      inr (returned ∷ before, after, inr (t, inr (ap (◌∷◌ returned) e)))
]

waiting_goes_on :
    {can_return : ThreadPool → ℕ → Type 0} (p : ThreadPool) (before after : List Worker)
    → p.stop ≡ true
    → p.workers ≡ before ++ waits ∷ after
    → (queue : List ℕ) → p.queue ≡ queue
    → (q : ThreadPool) × Work can_return p q
waiting_goes_on p before after stopped e [] empty = (_, leave before after e stopped empty)
waiting_goes_on p before after stopped e (task ∷ queue) more =
    (_, take_task before after task queue e more)

-- In a stopped pool where nobody sleeps, whose workers have not all returned, a worker can go on.
progress :
    {can_return : ThreadPool → ℕ → Type 0} (p : ThreadPool)
    → ((t : ℕ) → can_return p t)
    → p.stop ≡ true
    → total is_asleep p.workers ≡ 0
    → (is_joined p.workers ≡ true) ⊎ ((q : ThreadPool) × Work can_return p q)
progress p each_returns stopped awake = elim (find-Unreturned p.workers awake) [
  | inl all ↦ inl all
  | inr (before, after, inl e) ↦ inr (waiting_goes_on p before after stopped e p.queue refl)
  | inr (before, after, inr (t, inl e)) ↦ inr (_, count_up before after t e)
  | inr (before, after, inr (t, inr e)) ↦ inr (_, finish_task before after t e (each_returns t))
]

joined_total :
    (f : Worker → ℕ) (ws : List Worker) → is_joined ws ≡ true → total f ws ≡ length ws * f returned
unfolding is_joined
joined_total f [] h = omega arith
joined_total f (returned ∷ ws) h = grind (arith, joined_total f ws h)
joined_total f (waits ∷ ws) h = absurd (cc (h))
joined_total f (sleeps ∷ ws) h = absurd (cc (h))
joined_total f (holds t ∷ ws) h = absurd (cc (h))
joined_total f (runs t ∷ ws) h = absurd (cc (h))

-- All tasks that were submitted to `p` have been run, and nothing is left.
pub record AllDone (p q : ThreadPool) : Type 0 where
  pub joined : is_joined q.workers ≡ true
  pub started_all : q.started ≡ p.submitted
  pub finished_all : (t : ℕ) → total (is_task t) q.finished ≡ total (is_task t) p.submitted
  pub queue_empty : q.queue ≡ []
  pub none_active : q.active ≡ 0

Works-submitted :
    {can_return : ThreadPool → ℕ → Type 0} {p : ThreadPool} {n : ℕ} {q : ThreadPool}
    → Works can_return p n q
    → q.submitted ≡ p.submitted
Works-submitted none_yet = refl
Works-submitted (one_more ws (take_task before after task queue e e')) = Works-submitted ws
Works-submitted (one_more ws (count_up before after task e)) = Works-submitted ws
Works-submitted (one_more ws (finish_task before after task e back)) = Works-submitted ws
Works-submitted (one_more ws (leave before after e e' e'')) = Works-submitted ws

Works-notified :
    {can_return : ThreadPool → ℕ → Type 0} {p : ThreadPool} {n : ℕ} {q : ThreadPool}
    → Works can_return p n q
    → q.notified ≡ p.notified
Works-notified none_yet = refl
Works-notified (one_more ws (take_task before after task queue e e')) = Works-notified ws
Works-notified (one_more ws (count_up before after task e)) = Works-notified ws
Works-notified (one_more ws (finish_task before after task e back)) = Works-notified ws
Works-notified (one_more ws (leave before after e e' e'')) = Works-notified ws

Works-InOrder :
    (n : ℕ) {can_return : ThreadPool → ℕ → Type 0} {p : ThreadPool} {k : ℕ} {q : ThreadPool}
    → InOrder n p
    → Works can_return p k q
    → InOrder n q
Works-InOrder n i none_yet = i
Works-InOrder n i (one_more ws w) = Work-InOrder n (Works-InOrder n i ws) w

joined-AllDone :
    (n : ℕ) (p q : ThreadPool)
    → InOrder (suc n) q
    → q.submitted ≡ p.submitted
    → is_joined q.workers ≡ true
    → AllDone p q
joined-AllDone n p q i same all =
    let some_returned : 0 < total has_returned q.workers =
      omega (arith, joined_total has_returned q.workers all, i.same_workers) in
    let empty = (i.all_taken some_returned).1 in
    let started_all : q.started ≡ p.submitted =
      sym (append_nil q.started) ∙ ap (λ l. q.started ++ l) (sym empty) ∙ i.fifo ∙ same in
    record {
      joined = all;
      started_all = started_all;
      finished_all = λ t.
          let in_hand : total (has_task t) q.workers ≡ 0 =
            omega (arith, joined_total (has_task t) q.workers all) in
          omega (arith, i.kept t, in_hand, ap (total (is_task t)) started_all);
      queue_empty = empty;
      none_active = omega (arith, i.counted, joined_total is_running q.workers all);
    }

-- In a pool with a worker, after any run in which Shutdown has stopped it and notified its workers, and
-- where every task's call comes back in every state of the pool (so no task waits for another one to
-- run): the workers can do no more steps than `work_left`; and after any number of their steps, either
-- all have returned, so that the joins of Shutdown are over, and every task that was submitted has been
-- started in its order and has finished, as often as it was submitted, or another step is possible.
pub shutdown_drains :
    (can_return : ThreadPool → ℕ → Type 0) (n : ℕ) {p : ThreadPool} {k : ℕ} {q : ThreadPool}
    → ((q : ThreadPool) (t : ℕ) → can_return q t)
    → Run can_return (new (suc n)) p
    → p.notified ≡ true
    → Works can_return p k q
    → (k ≤ work_left p) × (AllDone p q ⊎ ((r : ThreadPool) × Work can_return q r))
shutdown_drains can_return n {p} {k} {q} each_returns run notified ws =
    let i = Works-InOrder (suc n) (Run-InOrder (suc n) run) ws in
    let (stopped, awake) = i.awake (Works-notified ws ∙ notified) in
    (
      omega (arith, Works-work_left ws),
      elim (progress {can_return = can_return} q (each_returns q) stopped awake) [
        | inl all ↦ inl (joined-AllDone n p q i (Works-submitted ws) all)
        | inr more ↦ inr more
      ],
    )
