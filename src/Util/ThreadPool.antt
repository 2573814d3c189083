-- ===== src/Util/ThreadPool.antt =====
-- util/ThreadPool.hpp and ThreadPool.cpp: the queue and the workers. A task is a number. Each step is
-- what one thread does under the mutex, a notification, or one change of the counter of active workers.
-- A worker that finds nothing to do sleeps on the condition variable until it is woken. What a task does
-- is not modelled; `can_return` says in which states of the pool its call may come back.
pub mod Order
pub mod Drain
mod Tests
use distributed_key_value_st.Base.{
  ℕ, zero, suc, ◌+◌, ◌-◌, ◌≡◌, ◌++◌, Bool, true, false, List, [], ◌∷◌, length, All, if◌then◌else◌,
  ◌==◌,
}

-- Where a worker is in its loop: in front of the test of cv_.wait, blocked in cv_.wait, with a task in its
-- hands, in the task, or returned.
pub data Worker : Type 0 where
  waits : Worker
  sleeps : Worker
  holds : ℕ → Worker
  runs : ℕ → Worker
  returned : Worker

-- `notified` is whether Shutdown has called notify_all; `submitted`, `started` and `finished` are the tasks that have been, in their order.
pub record ThreadPool : Type 0 where
  pub workers : List Worker
  pub queue : List ℕ
  pub stop : Bool
  pub notified : Bool
  pub active : ℕ
  pub submitted : List ℕ
  pub started : List ℕ
  pub finished : List ℕ

unfoldable pub waiting : ℕ → List Worker
waiting zero = []
waiting (suc n) = waits ∷ waiting n

-- ThreadPool pool(n)
unfoldable pub new : ℕ → ThreadPool
unfolding waiting
new n = record {
  workers = waiting n;
  queue = [];
  stop = false;
  notified = false;
  active = 0;
  submitted = [];
  started = [];
  finished = [];
}

-- A worker's step, from WorkerLoop.
pub data Work (can_return : ThreadPool → ℕ → Type 0) (p : ThreadPool) : ThreadPool → Type 0 where
  take_task :
      (before after : List Worker) (task : ℕ) (queue : List ℕ)
      → p.workers ≡ before ++ waits ∷ after
      → p.queue ≡ task ∷ queue
      → Work can_return p (record p {
        workers = before ++ holds task ∷ after;
        queue = queue;
        started = p.started ++ task ∷ [];
      })
  count_up :
      (before after : List Worker) (task : ℕ)
      → p.workers ≡ before ++ holds task ∷ after
      → Work can_return p
          (record p { workers = before ++ runs task ∷ after; active = p.active + 1 })
  finish_task :
      (before after : List Worker) (task : ℕ)
      → p.workers ≡ before ++ runs task ∷ after
      → can_return p task
      → Work can_return p (record p {
        workers = before ++ waits ∷ after;
        active = p.active - 1;
        finished = p.finished ++ task ∷ [];
      })
  leave :
      (before after : List Worker)
      → p.workers ≡ before ++ waits ∷ after
      → p.stop ≡ true
      → p.queue ≡ []
      → Work can_return p (record p { workers = before ++ returned ∷ after })

-- cv_.notify_all()
unfoldable pub wake_all : List Worker → List Worker
wake_all [] = []
wake_all (sleeps ∷ ws) = waits ∷ wake_all ws
wake_all (waits ∷ ws) = waits ∷ wake_all ws
wake_all (holds task ∷ ws) = holds task ∷ wake_all ws
wake_all (runs task ∷ ws) = runs task ∷ wake_all ws
wake_all (returned ∷ ws) = returned ∷ wake_all ws

-- Any step: a worker's; a worker that goes to sleep, or wakes up, by notify_one or for no reason; the part
-- of Submit under the mutex, where it does not throw; and the two parts of Shutdown in front of its joins.
pub data Step (can_return : ThreadPool → ℕ → Type 0) (p : ThreadPool) : ThreadPool → Type 0 where
  work : {q : ThreadPool} → Work can_return p q → Step can_return p q
  fall_asleep :
      (before after : List Worker)
      → p.workers ≡ before ++ waits ∷ after
      → p.stop ≡ false
      → p.queue ≡ []
      → Step can_return p (record p { workers = before ++ sleeps ∷ after })
  wake_up :
      (before after : List Worker)
      → p.workers ≡ before ++ sleeps ∷ after
      → Step can_return p (record p { workers = before ++ waits ∷ after })
  submit :
      (task : ℕ)
      → p.stop ≡ false
      → Step can_return p
          (record p { queue = p.queue ++ task ∷ []; submitted = p.submitted ++ task ∷ [] })
  shut_down : Step can_return p (record p { stop = true })
  notify_all :
      p.stop ≡ true → Step can_return p (record p { workers = wake_all p.workers; notified = true })

pub data Run (can_return : ThreadPool → ℕ → Type 0) (p : ThreadPool) : ThreadPool → Type 0 where
  here : Run can_return p p
  next : {q r : ThreadPool} → Run can_return p q → Step can_return q r → Run can_return p r

-- The workers' steps alone, and how many they are.
pub data Works (can_return : ThreadPool → ℕ → Type 0) (p : ThreadPool)
    : ℕ → ThreadPool → Type 0 where
  none_yet : Works can_return p 0 p
  one_more :
      {n : ℕ} {q r : ThreadPool}
      → Works can_return p n q
      → Work can_return q r
      → Works can_return p (suc n) r

-- The joins of Shutdown are over.
unfoldable pub is_joined : List Worker → Bool
is_joined [] = true
is_joined (returned ∷ ws) = is_joined ws
is_joined (waits ∷ ws) = false
is_joined (sleeps ∷ ws) = false
is_joined (holds task ∷ ws) = false
is_joined (runs task ∷ ws) = false

unfoldable pub queue_depth : ThreadPool → ℕ
queue_depth p = length p.queue
