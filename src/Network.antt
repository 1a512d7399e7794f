-- ===== src/Network.antt =====
-- Several pipelines of core/include/warlib/WarPipeline.h and core/src/WarPipeline.cpp whose tasks call
-- each other: Post, Dispatch, PostSynchronously and Close, one call of one thread at a time.
-- Pipelines and promises have numbers. A pipeline keeps what these calls look at: `count_` is the
-- number of tasks that wait, and its thread has the stack of the task that it runs.
pub mod Ranked
pub mod Inv
pub mod Moves
pub mod Steps
pub mod Work
pub mod Ends
pub mod Progress
pub mod Matches
pub mod Calls
pub mod Open
pub mod Draining
mod Tests
use warlib.Base.{
  ℕ, suc, Bool, true, false, Option, none, some, List, [], ◌∷◌, ◌++◌, length, leb, ltb, ◌+◌, ◌==◌,
  if◌then◌else◌,
}

-- What a task does, up to its end. A target is the pipeline that is called.
pub data Prog : Type 0 where
  return throws : Prog
  post dispatch sync : (target : ℕ) → (task rest : Prog) → Prog
  close : (target : ℕ) → (rest : Prog) → Prog

-- A handler of an io_context: a task, in the lambda of PostSynchronously if it has a promise to set,
-- or the handler of Close.
pub data Job : Type 0 where
  exec : Prog → (reply : Option ℕ) → Job
  shut : Job

-- What a thread goes back to at the end of a task: the lambda of PostSynchronously that sets a
-- promise, or the caller of a Dispatch or of a PostSynchronously in the thread itself.
pub data Frame : Type 0 where
  answers : (promise : ℕ) → Frame
  resumes resumes_sync : Prog → Frame

-- `waits` is in `future.get()`.
pub data NodeThread : Type 0 where
  idle ended : NodeThread
  busy : Prog → List Frame → NodeThread
  waits : (promise : ℕ) → Prog → List Frame → NodeThread

pub record Node : Type 0 where
  pub capacity : ℕ
  pub closing : Bool
  pub queue : List Job
  pub thread : NodeThread

-- `results` holds whether a promise was set, by `set_value` or by `set_exception`; `fresh` is the
-- number of the next promise.
pub record Net : Type 0 where
  pub nodes : ℕ → Node
  pub results : ℕ → Option Bool
  pub fresh : ℕ

abbrev pub put_at {ℓ} : {A : Type ℓ} → ℕ → A → (ℕ → A) → ℕ → A
put_at i a f x = if x == i then a else f x

abbrev pub set_node : ℕ → Node → Net → Net
set_node i n s = record s { nodes = put_at i n s.nodes }

abbrev pub set_thread : ℕ → NodeThread → Net → Net
set_thread i t s = set_node i (record (s.nodes i) { thread = t }) s

-- `boost::asio::post`
abbrev pub send : ℕ → Job → Net → Net
send j job s = set_node j (record (s.nodes j) { queue = (s.nodes j).queue ++ job ∷ [] }) s

-- `promise.set_value()` and `promise.set_exception(..)`
abbrev pub answer : ℕ → Bool → Net → Net
answer k ok s = record s { results = put_at k (some ok) s.results }

-- `count_`
abbrev pub waiting : List Job → ℕ
waiting [] = 0
waiting (exec task reply ∷ jobs) = waiting jobs + 1
waiting (shut ∷ jobs) = waiting jobs

-- The test of AddingTask.
abbrev pub is_full : Node → Bool
is_full n = ltb n.capacity (waiting n.queue + 1)

-- Post(task), from the thread of pipeline `i`.
abbrev pub op_post : ℕ → ℕ → Prog → Prog → List Frame → Net → Net
op_post i j task rest frames s =
    if (s.nodes j).closing
    then set_thread i (busy rest frames) s
    else (if is_full (s.nodes j)
        then set_thread i (busy throws frames) s
        else set_thread i (busy rest frames) (send j (exec task none) s))

-- Dispatch(task): the end of the nested ExecTask_ catches its exceptions.
abbrev pub op_dispatch : ℕ → ℕ → Prog → Prog → List Frame → Net → Net
op_dispatch i j task rest frames s =
    if (s.nodes j).closing
    then set_thread i (busy rest frames) s
    else (if i == j
        then set_thread i (busy task (resumes rest ∷ frames)) s
        else op_post i j task rest frames s)

abbrev pub new_promise : Net → Net
new_promise s = record s { fresh = suc s.fresh }

-- PostSynchronously(task)
abbrev pub op_sync : ℕ → ℕ → Prog → Prog → List Frame → Net → Net
op_sync i j task rest frames s =
    if (s.nodes j).closing
    then set_thread i (waits s.fresh rest frames) (new_promise s)
    else (if i == j
        then set_thread i (busy task (resumes_sync rest ∷ frames)) (new_promise s)
        else (if is_full (s.nodes j)
            then set_thread i (busy throws frames) (new_promise s)
            else set_thread i (waits s.fresh rest frames)
                (send j (exec task (some s.fresh)) (new_promise s))))

-- Close()
abbrev pub close_node : ℕ → Net → Net
close_node j s =
    set_node j (record (s.nodes j) { closing = true; queue = (s.nodes j).queue ++ shut ∷ [] }) s

abbrev pub op_close : ℕ → ℕ → Prog → List Frame → Net → Net
op_close i j rest frames s =
    if (s.nodes j).closing
    then set_thread i (busy rest frames) s
    else set_thread i (busy rest frames) (close_node j s)

-- The end of a task, `ok` if it returned: an exception is caught, stored in the promise, or goes on.
abbrev pub finish_task : ℕ → Bool → List Frame → Net → Net
finish_task i ok [] s = set_thread i idle s
finish_task i ok (answers k ∷ frames) s = set_thread i (busy return frames) (answer k ok s)
finish_task i ok (resumes rest ∷ frames) s = set_thread i (busy rest frames) s
finish_task i true (resumes_sync rest ∷ frames) s = set_thread i (busy rest frames) s
finish_task i false (resumes_sync rest ∷ frames) s = set_thread i (busy throws frames) s

abbrev pub reply_frames : Option ℕ → List Frame
reply_frames none = []
reply_frames (some k) = answers k ∷ []

abbrev pub set_rest : ℕ → NodeThread → List Job → Net → Net
set_rest i t rest s = set_node i (record (s.nodes i) { thread = t; queue = rest }) s

-- The loop of Run takes a handler; ExecTask_ dismisses the task of a closing pipeline.
abbrev pub take_job : ℕ → List Job → Net → Option Net
take_job i [] s = none
take_job i (exec task reply ∷ rest) s = some (
    if (s.nodes i).closing
    then set_rest i idle rest s
    else set_rest i (busy task (reply_frames reply)) rest s)
take_job i (shut ∷ rest) s = some (set_rest i ended rest s)

-- `future.get()`
abbrev pub get_result : ℕ → Option Bool → Prog → List Frame → Net → Option Net
get_result i none rest frames s = none
get_result i (some true) rest frames s = some (set_thread i (busy rest frames) s)
get_result i (some false) rest frames s = some (set_thread i (busy throws frames) s)

abbrev pub run_op : ℕ → Prog → List Frame → Net → Net
run_op i return frames s = finish_task i true frames s
run_op i throws frames s = finish_task i false frames s
run_op i (post j task rest) frames s = op_post i j task rest frames s
run_op i (dispatch j task rest) frames s = op_dispatch i j task rest frames s
run_op i (sync j task rest) frames s = op_sync i j task rest frames s
run_op i (close j rest) frames s = op_close i j rest frames s

abbrev pub act_on : ℕ → NodeThread → Net → Option Net
act_on i idle s = take_job i (s.nodes i).queue s
act_on i ended s = none
act_on i (busy p frames) s = some (run_op i p frames s)
act_on i (waits k rest frames) s = get_result i (s.results k) rest frames s

-- One step of the thread of pipeline `i`; `none` if it has nothing to do or waits.
unfoldable pub move : ℕ → Net → Option Net
move i s = act_on i (s.nodes i).thread s

abbrev pub net_then : Option Net → (Net → Option Net) → Option Net
net_then none f = none
net_then (some s) f = f s

-- A schedule: the threads that step, one after the other, each of which can.
unfoldable pub run_net : List ℕ → Net → Option Net
unfolding move
run_net [] s = some s
run_net (i ∷ is) s = net_then (move i s) (run_net is)
