-- ===== src/Util/ThreadPool/Tests.antt =====
-- util/ThreadPool.cpp: one worker, one task, and Shutdown while the task is still in the queue.
use distributed_key_value_st.Base.{ℕ, ◌≤◌, ◌⊎◌, refl, true, [], ◌∷◌}
use distributed_key_value_st.Util.ThreadPool.{
  ThreadPool, holds, waits, wake_all, new, Work, take_task, fall_asleep, notify_all, submit,
  shut_down, Run, here, next, Works, none_yet, one_more,
}
use distributed_key_value_st.Util.ThreadPool.Drain.{AllDone, work_left, shutdown_drains}

abbrev one_task : ThreadPool
one_task = record {
  workers = waits ∷ [];
  queue = 7 ∷ [];
  stop = true;
  notified = true;
  active = 0;
  submitted = 7 ∷ [];
  started = [];
  finished = [];
}

abbrev taken : ThreadPool
taken = record one_task { workers = holds 7 ∷ []; queue = []; started = 7 ∷ [] }

abbrev AtOnce : ThreadPool → ℕ → Type 0
AtOnce p t = Unit

-- The worker has gone to sleep before the task comes, and Shutdown wakes it.
stopped-Run : Run AtOnce (new 1) one_task
unfolding new wake_all
stopped-Run =
    next (next (next (next here (fall_asleep [] [] refl refl refl)) (submit 7 refl)) shut_down)
      (notify_all refl)

taken-Works : Works AtOnce one_task 1 taken
taken-Works = one_more none_yet (take_task [] [] 7 [] refl refl)

shutdown_drains_example :
    (1 ≤ work_left one_task) × (AllDone one_task taken ⊎ ((r : ThreadPool) × Work AtOnce taken r))
shutdown_drains_example = shutdown_drains AtOnce 0 (λ q t. tt) stopped-Run refl taken-Works
