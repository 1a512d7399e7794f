-- ===== src/Network/Ranked.antt =====
-- Tasks that wait only for pipelines that come after their own: the order in which the pipelines of
-- Network stand, and what is known of each waiting thread.
use warlib.Base.{
  ℕ, ◌≤◌, ◌<◌, ◌≡◌, Bool, true, false, ◌||◌, Option, none, some, List, [], ◌∷◌, ◌==◌, All,
}
use warlib.Network.{
  Prog, return, throws, post, dispatch, sync, close, Job, exec, shut, Frame, answers, resumes,
  resumes_sync, NodeThread, idle, ended, busy, waits, Node, Net,
}

-- There are `n` pipelines.
module _ (n : ℕ) where
  -- A task for pipeline `i`: it calls the `n` pipelines only, and PostSynchronously only its own or a
  -- later one.
  abbrev pub IsRanked : ℕ → Prog → Type 0
  IsRanked i return = Unit
  IsRanked i throws = Unit
  IsRanked i (post j task rest) = (j < n) × IsRanked j task × IsRanked i rest
  IsRanked i (dispatch j task rest) = (j < n) × IsRanked j task × IsRanked i rest
  IsRanked i (sync j task rest) = (i ≤ j) × (j < n) × IsRanked j task × IsRanked i rest
  IsRanked i (close j rest) = (j < n) × IsRanked i rest

  -- The handler of Close waits in a closing pipeline only.
  abbrev pub JobIsRanked : ℕ → (closing : Bool) → Job → Type 0
  JobIsRanked i closing (exec task reply) = IsRanked i task
  JobIsRanked i closing shut = closing ≡ true

  abbrev pub FrameIsRanked : ℕ → Frame → Type 0
  FrameIsRanked i (answers k) = Unit
  FrameIsRanked i (resumes rest) = IsRanked i rest
  FrameIsRanked i (resumes_sync rest) = IsRanked i rest

  abbrev pub ThreadIsRanked : ℕ → (closing : Bool) → NodeThread → Type 0
  ThreadIsRanked i closing idle = Unit
  ThreadIsRanked i closing ended = closing ≡ true
  ThreadIsRanked i closing (busy p frames) = IsRanked i p × All (FrameIsRanked i) frames
  ThreadIsRanked i closing (waits k p frames) = IsRanked i p × All (FrameIsRanked i) frames

  pub record NodeIsRanked (i : ℕ) (v : Node) : Type 0 where
    pub queue : All (JobIsRanked i v.closing) v.queue
    pub thread : ThreadIsRanked i v.closing v.thread

-- A handler, a frame or a thread that will set promise `k`.
abbrev pub is_reply : ℕ → Option ℕ → Bool
is_reply k none = false
is_reply k (some j) = k == j

abbrev pub queue_sets : ℕ → List Job → Bool
queue_sets k [] = false
queue_sets k (exec task reply ∷ jobs) = is_reply k reply || queue_sets k jobs
queue_sets k (shut ∷ jobs) = queue_sets k jobs

abbrev pub frames_set : ℕ → List Frame → Bool
frames_set k [] = false
frames_set k (answers j ∷ frames) = (k == j) || frames_set k frames
frames_set k (resumes p ∷ frames) = frames_set k frames
frames_set k (resumes_sync p ∷ frames) = frames_set k frames

abbrev pub thread_sets : ℕ → NodeThread → Bool
thread_sets k (busy p frames) = frames_set k frames
thread_sets k (waits j p frames) = frames_set k frames
thread_sets k t = false

abbrev pub node_sets : ℕ → Node → Bool
node_sets k v = queue_sets k v.queue || thread_sets k v.thread

-- Why a thread of pipeline `i` that waits for promise `k` does not wait for ever.
pub data Served (n : ℕ) (s : Net) (i k : ℕ) : Type 0 where
  is_set : (ok : Bool) → s.results k ≡ some ok → Served n s i k
  will_set : (j : ℕ) → i < j → j < n → node_sets k (s.nodes j) ≡ true → Served n s i k
  is_closing : (j : ℕ) → j < n → (s.nodes j).closing ≡ true → Served n s i k

abbrev pub WaitIsServed : ℕ → Net → ℕ → NodeThread → Type 0
WaitIsServed n s i (waits k p frames) = Served n s i k
WaitIsServed n s i t = Unit

pub record Inv (n : ℕ) (s : Net) : Type 0 where
  pub ranked : (x : ℕ) → NodeIsRanked n x (s.nodes x)
  pub served : (x : ℕ) → WaitIsServed n s x (s.nodes x).thread
