-- ===== src/Serving/Session/WorkQueue.antt =====
-- WorkQueue of serving/turbine_serving/framework/session.py: a progression of steps against one
-- timeline semaphore. What the device is handed are timepoints of that semaphore. Each method reads
-- and advances the step under the queue's lock, so a method is one step of the model.
use shark_turbine.Common.{ℕ, ◌+◌, ◌≡◌, refl, List, [], ◌∷◌}

pub record WorkQueue : Type 0 where
  pub index : ℕ
  pub step : ℕ

-- The wait and the signal timepoint of one piece of work.
pub record Span : Type 0 where
  pub wait : ℕ
  pub signal : ℕ

-- TimelineGuarded, over the queue's semaphore
pub record Guarded {ℓ} (T : Type ℓ) : Type ℓ where
  pub value : T
  pub timeline : ℕ

unfoldable pub new_queue : ℕ → WorkQueue
new_queue i = record { index = i; step = 0 }

-- What `queue_execute` is given.
unfoldable pub execute_sequential : WorkQueue → Span × WorkQueue
execute_sequential q =
    let current_step = q.step in
    let next_step = current_step + 1 in
    (record { wait = current_step; signal = next_step }, record q { step = next_step })

-- The timepoint of the fence.
unfoldable pub current_fence : WorkQueue → ℕ
current_fence q = q.step

unfoldable pub step_fences : WorkQueue → Span × WorkQueue
step_fences q =
    let current_step = q.step in
    let next_step = current_step + 1 in
    (record { wait = current_step; signal = next_step }, record q { step = next_step })

-- The timepoint that the returned future waits for.
unfoldable pub sync : WorkQueue → ℕ
sync q = q.step

unfoldable pub guard {ℓ} : {T : Type ℓ} → WorkQueue → T → Guarded T
guard q v = record { value = v; timeline = q.step }

pub data Call : Type 0 where
  executes fences waits : Call

-- Any history of calls, with the spans in the order in which they were handed out.
unfoldable pub run : WorkQueue → List Call → List Span × WorkQueue
run q [] = ([], q)
run q (executes ∷ cs) =
    let (s, q') = execute_sequential q in let (ss, q'') = run q' cs in (s ∷ ss, q'')
run q (fences ∷ cs) = let (s, q') = step_fences q in let (ss, q'') = run q' cs in (s ∷ ss, q'')
run q (waits ∷ cs) = run q cs

-- Each span begins where the one before it ended, and ends one later.
abbrev pub IsTimeline : ℕ → List Span → ℕ → Type 0
IsTimeline start [] end = start ≡ end
IsTimeline start (s ∷ ss) end =
    (s.wait ≡ start) × (s.signal ≡ start + 1) × IsTimeline s.signal ss end

-- Whatever the calls, the spans are one gapless timeline from the queue's step before them to its
-- step after them: each piece of work waits for exactly the one submitted before it.
pub run-IsTimeline :
    (q : WorkQueue) (cs : List Call) → let (ss, q') = run q cs in IsTimeline q.step ss q'.step
unfolding run execute_sequential step_fences
run-IsTimeline q [] = refl
run-IsTimeline q (executes ∷ cs) = (refl, refl, run-IsTimeline (execute_sequential q).1 cs)
run-IsTimeline q (fences ∷ cs) = (refl, refl, run-IsTimeline (step_fences q).1 cs)
run-IsTimeline q (waits ∷ cs) = run-IsTimeline q cs

abbrev last_signal : ℕ → List Span → ℕ
last_signal start [] = start
last_signal start (s ∷ ss) = last_signal s.signal ss

IsTimeline-last :
    (start end : ℕ) (ss : List Span) → IsTimeline start ss end → last_signal start ss ≡ end
IsTimeline-last start end [] h = h
IsTimeline-last start end (s ∷ ss) h = IsTimeline-last s.signal end ss h.2

-- A value guarded after any calls on a queue, and a `sync` made there, wait for the signal of the
-- last work submitted, or for the queue's step before the calls if there was none.
pub guard-run {ℓ} :
    {T : Type ℓ} (q : WorkQueue) (cs : List Call) (v : T)
    → let (ss, q') = run q cs in
      ((guard q' v).timeline ≡ last_signal q.step ss) × (sync q' ≡ last_signal q.step ss)
unfolding guard sync
guard-run q cs v =
    let last = IsTimeline-last q.step (run q cs).1.step (run q cs).0 (run-IsTimeline q cs) in
    (cc last, cc last)
