-- ===== src/Network/Tests.antt =====
-- Two pipelines: one that waits for the other, and two that wait for each other.
use warlib.Base.{
  ◌<◌, ◌⊎◌, ℕ, zero, suc, ◌+◌, ◌≤◌, ◌≡◌, refl, false, none, some, List, [], ◌∷◌, All, arith, codes,
  true,
}
use warlib.Network.{Prog, return, throws, post, sync, Job, exec, idle, Node, Net, move, run_net}
use warlib.Network.Matches.{Matches}
use warlib.Pipeline.{Pipeline, unset, looping}
use warlib.Network.Ranked.{JobIsRanked}
use warlib.Network.Work.{work}
use warlib.Network.Progress.{Starts, AllQuiet}
use warlib.Network.Open.{JobIsOpen}
use warlib.Network.Draining.{run_net-drains}

abbrev node_with : List Job → Node
node_with jobs = record { capacity = 2; closing = false; queue = jobs; thread = idle }

-- The first waits for a task of the second that throws.
abbrev asking : Prog
asking = sync 1 throws (post 1 return return)

abbrev one_way : ℕ → Node
one_way zero = node_with (exec asking none ∷ [])
one_way (suc x) = node_with []

abbrev begun_net : Net
begun_net = record { nodes = one_way; results = λ k. none; fresh = 0 }

one_way-calm : (x : ℕ) → (one_way x).thread ≡ idle
one_way-calm zero = refl
one_way-calm (suc x) = refl

one_way-open_yet : (x : ℕ) → (one_way x).closing ≡ false
one_way-open_yet zero = refl
one_way-open_yet (suc x) = refl

one_way-JobIsRanked : (x : ℕ) → All (JobIsRanked 2 x false) (one_way x).queue
one_way-JobIsRanked zero = ((omega arith, omega arith, tt, (omega arith, tt, tt)), tt)
one_way-JobIsRanked (suc x) = tt

begun_net-Starts : Starts 2 begun_net
begun_net-Starts = record {
  calm = one_way-calm;
  open_yet = one_way-open_yet;
  ranked = one_way-JobIsRanked;
}

asked_runs : (u : Net) × (run_net (0 ∷ 0 ∷ 1 ∷ []) begun_net ≡ some u)
unfolding run_net move
asked_runs = (_, refl)

one_way-JobIsOpen : (x : ℕ) → All JobIsOpen (one_way x).queue
one_way-JobIsOpen zero = ((tt, (tt, tt)), tt)
one_way-JobIsOpen (suc x) = tt

run_net-drains_example :
    (3 + work 2 asked_runs.0 ≤ work 2 begun_net)
    × (((i : ℕ) × (i < 2) × (w : Net) × (move i asked_runs.0 ≡ some w)) ⊎ AllQuiet 2 asked_runs.0)
run_net-drains_example =
    run_net-drains 2 (0 ∷ 0 ∷ 1 ∷ []) begun_net asked_runs.0 begun_net-Starts one_way-JobIsOpen
      (omega arith, (omega arith, (omega arith, tt))) asked_runs.1

-- Each waits for the other: after two steps of both, no thread can step.
abbrev cross : ℕ → Node
cross zero = node_with (exec (sync 1 return return) none ∷ [])
cross (suc x) = node_with (exec (sync 0 return return) none ∷ [])

abbrev crossing : Net
crossing = record { nodes = cross; results = λ k. none; fresh = 0 }

crossing_waits :
    (u : Net) × (run_net (0 ∷ 0 ∷ 1 ∷ 1 ∷ []) crossing ≡ some u)
    × (move 0 u ≡ none)
    × (move 1 u ≡ none)
unfolding run_net move
crossing_waits = (_, refl, refl, refl)

-- The second pipeline as the model of a single pipeline has it.
abbrev second : Pipeline
second = record {
  name = codes "second";
  id = some 1;
  capacity = 2;
  count = 0;
  closed = false;
  closing = false;
  tasks_run = 0;
  work_guard = true;
  stopped = false;
  queue = [];
  timers = [];
  promises = λ k. unset;
  thread = looping;
  now = 0;
  events = [];
}

second-Matches : Matches (begun_net.nodes 1) second
second-Matches = record { same_closing = refl; same_capacity = refl; counted = refl }
