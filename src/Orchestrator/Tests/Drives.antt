-- ===== src/Orchestrator/Tests/Drives.antt =====
-- The drive of a node, the poll of its log and the start of an inspect, at concrete inputs.
use cube_cos_driver.Base.{ℕ, ◌+◌, true, false, ◌≡◌, refl, [], ◌∷◌, none, some, arith, if◌then◌else◌}
use cube_cos_driver.Base.Maps.{lookup}
use cube_cos_driver.Orchestrator.Record.{Node}
use cube_cos_driver.Orchestrator.Ready.{set_ready_pending}
use cube_cos_driver.Orchestrator.Drive.{Call, Look, Poll, run_node, poll_round}
use cube_cos_driver.Orchestrator.Drive.Finished.{settles, Ticks, ticks, run_node-settles}
use cube_cos_driver.Orchestrator.Drive.Polled.{read_terminal, others_do, poll_round-stopped}
use cube_cos_driver.Orchestrator.Inspects.{Inspecting, begin_all, start_inspect}
use cube_cos_driver.Orchestrator.Inspects.Refused.{is_of, start_inspect-refused}
use cube_cos_driver.Orchestrator.Tests.{opened, node_at}
use cube_cos_driver.Orchestrator.Tests.Parts.{passed_manager, done_manager}

-- A BMC that answers, and looks that see nothing, ten units of time apart.
abbrev answered : Call
answered = record { meanwhile = λ m. m; fault = none }

abbrev looks : ℕ → Look
looks k = record { meanwhile = λ m. record m { clock = m.clock + 10 }; ended = false; stage = none }

abbrev master : Node
master = node_at "m1" "10.0.0.1"

ticking : Ticks looks 10
ticking = record { live = λ k. refl; tick_on = λ k m. omega arith }

run_node-settles_example :
    settles "c" "m1" (run_node "c" master answered answered answered 100 looks 11 passed_manager)
    ≡ true
unfolding ticks
run_node-settles_example =
    run_node-settles "c" master looks 10 ticking answered answered answered 100 11 passed_manager
      (omega arith)

abbrev quiet : Poll
quiet = record {
  meanwhile = λ m. m;
  ended = false;
  before_master = λ m. m;
  before_state = λ host m. m;
  seen = λ host. none;
  reading = λ host m. m;
}

poll_round-stopped_example :
    (set_ready_pending "c" done_manager ≡ false)
    × (read_terminal "c" quiet (master ∷ []) done_manager ≡ true)
    × (others_do "c" quiet (master ∷ []) done_manager ≡ done_manager)
unfolding poll_round opened
poll_round-stopped_example =
    poll_round-stopped "c" (master ∷ []) quiet done_manager done_manager refl refl

abbrev idle_inspects : Inspecting
idle_inspects = record {
  inspects = [];
  inspect_nodes = [];
  resets = [];
  disk_boots = [];
  next_run = 0;
  clock = 5;
}

start_inspect-refused_example :
    (lookup "m1" (start_inspect (master ∷ []) [] (some "busy") (λ s. s) idle_inspects).1.inspects
      ≡ (if is_of "m1" (master ∷ [])
          then lookup "m1" idle_inspects.inspects
          else lookup "m1" (begin_all [] (master ∷ []) idle_inspects).inspects))
    × (lookup "m1"
          (start_inspect (master ∷ []) [] (some "busy") (λ s. s) idle_inspects).1.inspect_nodes
        ≡ (if is_of "m1" (master ∷ [])
            then lookup "m1" idle_inspects.inspect_nodes
            else lookup "m1" (begin_all [] (master ∷ []) idle_inspects).inspect_nodes))
start_inspect-refused_example =
    start_inspect-refused (master ∷ []) [] "busy" "m1" (λ s. s) idle_inspects
