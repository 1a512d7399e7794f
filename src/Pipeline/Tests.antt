-- ===== src/Pipeline/Tests.antt =====
-- Runs of Pipeline on small inputs, and one input for each of its theorems.
use mathlib.Core.List.{reverse}
use warlib.Base.{
  ◌+◌, ◌-◌, ◌%◌, ◌≤◌, ◌<◌, ◌≡◌, refl, true, false, none, some, List, [], ◌∷◌, ◌++◌, codes, map,
  replicate, total, get_elem?, ltb, if◌then◌else◌, arith, Bool, ◌||◌, not, ◌⊎◌, ◌&&◌, Text, ℕ,
}
use warlib.Errors.{std_only}
use warlib.Task.{
  Task, task, with_promise, return, throw, fulfil, call, post, dispatch, post_synchronously,
  post_token, label, close, post_with_timer,
}
use warlib.Pipeline.{
  word, exec, Pipeline, returned, threw, unset, looping, ended, init, out_of_capacity, post_timer,
  Timer,
}
use warlib.Pipeline.Thread.{
  run_task, run_call, run_handler, Move, takes, leaves, calls, step, run, may_leave, may_return,
  passes, fires, is_running,
}
use warlib.Pipeline.Getters.{
  is_closed, is_closing, get_capacity, get_count, get_id, get_name, write_pipeline,
}
use warlib.Pipeline.Phases.{shuts, one_if}
use warlib.Pipeline.Phases.Runs.{run-phases}
use warlib.Pipeline.Count.{execs, tokens_taken, token_of, count-run, count-le-capacity}
use warlib.Pipeline.Closing.{started, run-closing}
use warlib.Pipeline.Accounts.{asked, all_refused, begun, dropped, failures, waiting, timed}
use warlib.Pipeline.Accounts.Moves.{run-accounts}
use warlib.Pipeline.Order.{IsOpen, IsQuiet, posts, run-posts-in_order}
use warlib.Pipeline.Fifo.{all_given, all_taken, taken_by, run-fifo}
use warlib.Pipeline.Sync.{
  inner, finish, inner_promise, forwarded, post_synchronously-on_thread, post_with_promise-throws,
}
use warlib.Pipeline.Loop.{step-ended}
use warlib.Pipeline.Shutdown.{orderly, close-ends}
use warlib.Pipeline.Race.{
  outside, checked, resting, Shared, check, raise, hand_in, Reach, here, next, is_took, is_admitted,
  bounded-by-capacity,
}
use warlib.Pipeline.Race.Refusal.{spurious-refusal}
use warlib.Pipeline.Token.{post_token-exhausts}
use warlib.Pipeline.Timing.{passed}
use warlib.Pipeline.Timing.Delay.{Holds, post_timer-Holds}
use warlib.Pipeline.Drained.{turns, TakesAll, run-TakesAll}
use warlib.Pipeline.Start.{CpuSet, only, pinned, failed, pin_thread, RefusesEmpty, pin_thread_lem}

abbrev hello : Task
hello = task (codes "hello") return

abbrev failing : Task
failing = task (codes "failing") (throw (std_only 3))

abbrev greeting : Task
greeting = task (codes "greeting") (call (post hello) (call (dispatch hello) return))

abbrev small : Pipeline
small = record {
  name = codes "p";
  id = none;
  capacity = 2;
  count = 0;
  closed = false;
  closing = false;
  tasks_run = 0;
  work_guard = true;
  stopped = false;
  queue = [];
  timers = [];
  promises = λ k. unset;
  thread = looping;
  now = 0;
  events = [];
}

-- Three posts, of which the third is one too many, and the second task taken first.
abbrev moves : List Move
moves = calls (post hello) ∷ calls (post greeting) ∷ calls (post hello) ∷ takes 1 ∷ []

-- Both places are taken when the third task is posted; a timer, one more task, and Close.
abbrev client_moves : List Move
client_moves =
    calls (post hello)
    ∷ calls (dispatch failing)
    ∷ calls (post hello)
    ∷ calls (post_with_timer hello 5)
    ∷ takes 1
    ∷ passes 5
    ∷ fires 0 false
    ∷ calls close
    ∷ takes 0
    ∷ calls (post hello)
    ∷ []

-- Every task counts.
abbrev all_names : Text → ℕ
all_names n = 1

abbrev after_clients : Pipeline
after_clients = run client_moves (init (codes "p") none 2)

run-accounts_example :
    (total (asked all_names) client_moves
      ≡ all_refused all_names client_moves (init (codes "p") none 2)
        + begun all_names after_clients.events
        + dropped all_names after_clients.events
        + failures all_names after_clients.events
        + waiting all_names after_clients.queue
        + timed all_names after_clients.timers)
    × ((after_clients.closing ≡ true) ⊎ (dropped all_names after_clients.events ≡ 0))
run-accounts_example =
    run-accounts all_names (codes "p") none 2 client_moves (omega arith)
      (tt, (tt, (tt, (tt, (tt, (tt, (tt, (tt, (tt, (tt, tt))))))))))

-- Of five tasks one was refused, two were executed, and two dismissed.
clients_settled :
    (all_refused all_names client_moves (init (codes "p") none 2) ≡ 1)
    × (begun all_names after_clients.events ≡ 2)
    × (dropped all_names after_clients.events ≡ 2)
unfolding run step init run_call
clients_settled = (refl, refl, refl)

small_written : write_pipeline small ≡ codes "{ pipeline: p #-1}"
unfolding write_pipeline
small_written = refl

moves-run : (run moves small).tasks_run ≡ 2
unfolding run run_call
moves-run = refl

moves-count : (run moves small).count ≡ 2
unfolding run run_call
moves-count = refl

small-init : init (codes "p") none 2 ≡ small
unfolding init
small-init = refl

count-run_example :
    let p = run moves (init (codes "p") none 2) in
    (p.count + tokens_taken moves (init (codes "p") none 2)) % word ≡ execs p.queue % word
count-run_example = count-run (codes "p") none 2 moves (omega arith)

no_tokens : tokens_taken moves (init (codes "p") none 2) ≡ 0
unfolding tokens_taken token_of run run_call init
no_tokens = refl

count-le-capacity_example :
    let p = run moves (init (codes "p") none 2) in
    (get_count p ≡ execs p.queue) × (get_count p ≤ 2) × (get_capacity p ≡ 2)
count-le-capacity_example = count-le-capacity (codes "p") none 2 moves (omega arith) no_tokens

abbrev shutting : Pipeline
shutting = record small { closing = true }

run-closing_example :
    let q = run moves shutting in
    (q.closing ≡ true)
    × (started q.events ≡ started shutting.events)
    × (q.tasks_run ≡ shutting.tasks_run)
    × (q.promises 7 ≡ unset)
run-closing_example = run-closing moves shutting 7 refl refl

abbrev loaded : Pipeline
loaded = record small { count = 1; queue = exec hello ∷ [] }

close-ends_example :
    let q = run (orderly loaded) loaded in
    (may_return q.thread ≡ true)
    × (q.closed ≡ true)
    × (started q.events ≡ started loaded.events)
    × (q.tasks_run ≡ loaded.tasks_run)
    × (q.promises 7 ≡ unset)
close-ends_example = close-ends loaded 7 refl refl refl refl refl

IsOpen-small : IsOpen small
IsOpen-small = record { not_closing = refl; loops = refl; not_stopped = refl }

IsQuiet-hello : IsQuiet hello
unfolding run_task
IsQuiet-hello p = refl

run-posts-in_order_example :
    let q = run (replicate 2 (takes 0)) (run (posts (hello ∷ hello ∷ [])) small) in
    (started q.events ≡ reverse (map label (hello ∷ hello ∷ [])) ++ started small.events)
    × (q.tasks_run ≡ small.tasks_run + 2)
    × (q.queue ≡ [])
    × (q.count ≡ 0)
run-posts-in_order_example =
    run-posts-in_order (hello ∷ hello ∷ []) small IsOpen-small refl refl (omega arith) (omega arith)
      (IsQuiet-hello, (IsQuiet-hello, tt))

inner_promise_unset : (run_task greeting (inner greeting 7 small)).1.promises 7 ≡ unset
unfolding inner run_task
inner_promise_unset = refl

post_synchronously-on_thread_example :
    run_call (post_synchronously greeting 7) true small
    ≡ finish 7 (run_task greeting (inner greeting 7 small))
post_synchronously-on_thread_example =
    post_synchronously-on_thread greeting 7 small refl inner_promise_unset

abbrev fails_late : Task
fails_late = task (codes "late") (fulfil 7 (throw (std_only 3)))

late_runs :
    run_task fails_late (inner_promise fails_late small)
    ≡ (threw (std_only 3), (run_task fails_late (inner_promise fails_late small)).1)
unfolding inner_promise run_task
late_runs = refl

post_with_promise-throws_example : run_handler (exec (with_promise 7 fails_late)) small ≡ (
  returned,
  forwarded
      ((run_task fails_late (inner_promise fails_late small)).1.promises 7)
      7
      (std_only 3)
      (run_task fails_late (inner_promise fails_late small)).1,
)
post_with_promise-throws_example =
    post_with_promise-throws fails_late 7 small
      (run_task fails_late (inner_promise fails_late small)).1 (std_only 3) refl late_runs

abbrev finished : Pipeline
finished = record small { closing = true; closed = true; work_guard = false; stopped = true }

finished_ends : (step leaves finished).thread ≡ ended
unfolding step
finished_ends = refl

step-ended_example : (leaves ≡ leaves) × (may_leave finished ≡ true)
step-ended_example = step-ended leaves finished refl finished_ends

post_token-exhausts_example :
    let q =
      run
        (calls (post_token hello 5) ∷ takes 0 ∷ calls (post_token hello 6) ∷ takes 0 ∷ [])
        small in
    (q.queue ≡ [])
    × (q.count ≡ word - 2)
    × (run_call (post hello) false q ≡ (threw (out_of_capacity small), q))
post_token-exhausts_example =
    post_token-exhausts hello hello hello 5 6 false small IsOpen-small IsQuiet-hello IsQuiet-hello
      refl refl (omega arith)

-- One task waits at a capacity of one, and a second thread has looked at `closing_`.
abbrev busy : Shared
busy = record {
  count = 1;
  closing = false;
  waiting = 1;
  posters = outside ∷ checked ∷ [];
  worker = resting;
}

busy_reached : Reach 1 2 busy
busy_reached =
    next (next (next (next here (check 0 refl refl)) (raise 0 refl (omega arith))) (hand_in 0 refl))
      (check 1 refl refl)

bounded-by-capacity_example :
    (busy.waiting + is_took busy.worker + total is_admitted busy.posters ≤ 1) × (busy.count ≤ 1 + 2)
bounded-by-capacity_example =
    bounded-by-capacity {cap = 1} {n = 2} {s = busy} (omega arith) busy_reached

spurious-refusal_example :
    (s : Shared) × Reach 3 2 s
    × (s.waiting < 3)
    × (s.worker ≡ resting)
    × (total is_admitted s.posters ≡ 0)
    × (get_elem? s.posters 1 ≡ some checked)
    × (3 < (s.count + 1) % word)
spurious-refusal_example = spurious-refusal 3 (omega arith) (omega arith)

run-TakesAll_example :
    (is_running (run (turns loaded) loaded).thread && not (run (turns loaded) loaded).stopped
      ≡ false)
    ⊎ TakesAll loaded
run-TakesAll_example = run-TakesAll loaded

-- A system with four CPUs.
abbrev four_cpus : CpuSet → Bool
four_cpus s = s 0 || s 1 || s 2 || s 3

four_cpus-RefusesEmpty : RefusesEmpty four_cpus
four_cpus-RefusesEmpty = record { refuses = refl }

pin_thread_lem_example :
    pin_thread four_cpus (some 2)
    ≡ (if ltb 2 8 then (if four_cpus (only 2) then pinned else failed) else failed)
pin_thread_lem_example = pin_thread_lem four_cpus 2 four_cpus-RefusesEmpty

-- A timer of 50 milliseconds, of which 49 pass while the pipeline is closed.
abbrev waiting_moves : List Move
waiting_moves = passes 20 ∷ calls close ∷ fires 0 false ∷ takes 0 ∷ passes 29 ∷ []

abbrev greeting_timer : Timer
greeting_timer = record { expires = small.now + 50; job = greeting; token = none }

post_timer-Holds_example :
    (post_timer greeting 50 small
      ≡ (returned, record small { timers = greeting_timer ∷ small.timers }))
    × Holds greeting_timer
        (small.now + total passed waiting_moves)
        (run waiting_moves (post_timer greeting 50 small).1)
post_timer-Holds_example =
    post_timer-Holds greeting 50 waiting_moves small refl (omega arith)
      (tt, (tt, (refl, (tt, (tt, tt)))))

run-phases_example :
    let p = run (calls close ∷ takes 0 ∷ moves) (init (codes "p") (some 3) 2) in
    (get_name p ≡ codes "p")
    × (get_id p ≡ some 3)
    × (get_capacity p ≡ 2)
    × (p.stopped ≡ is_closed p)
    × (p.work_guard ≡ not (is_closed p))
    × (is_closing p ≡ (is_closed p || ltb 0 (shuts p.queue)))
    × (shuts p.queue + one_if (is_closed p) ≤ 1)
run-phases_example = run-phases (codes "p") (some 3) 2 (calls close ∷ takes 0 ∷ moves)

-- Posts, one from a task of the pipeline, and takes.
abbrev in_turn : List Move
in_turn =
    calls (post greeting) ∷ calls (post hello) ∷ takes 0 ∷ calls close ∷ takes 0 ∷ takes 0 ∷ []

run-fifo_example :
    small.queue ++ all_given in_turn small ≡ all_taken in_turn small ++ (run in_turn small).queue
run-fifo_example = run-fifo in_turn small (tt, (tt, (refl, (tt, (refl, (refl, tt))))))

-- The greeting, the other task, and the one that the greeting posts.
in_turn-taken : all_taken in_turn small ≡ exec greeting ∷ exec hello ∷ exec hello ∷ []
unfolding all_taken taken_by step run_call run_handler
in_turn-taken = refl
