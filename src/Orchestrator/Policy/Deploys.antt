-- ===== src/Orchestrator/Policy/Deploys.antt =====
-- The changes of one deploy that keep it policed.
use cube_cos_driver.Base.{
  ℕ, ◌+◌, String, true, ◌||◌, ◌≡◌, ◌==◌, eq_iff, contains, some, List, [], ◌∷◌, arith, All,
  Option-cases, inl, inr, contains-append, ==-cases, contains-cons, contains-nil,
}
use cube_cos_driver.Base.Maps.{lookup, lookup-insert}
use cube_cos_driver.Orchestrator.Record.{Node, NodeDeploy, Deploy}
use cube_cos_driver.Orchestrator.Nodes.{authorize_node}
use cube_cos_driver.Orchestrator.Manager.{put_node}
use cube_cos_driver.Orchestrator.Ledger.{authorize_one, authorize_all}
use cube_cos_driver.Orchestrator.Policy.{allowed, IsPoliced}

-- A change of one node that leaves its gates as they are, or adds allowed ones.
pub put_node-IsPoliced :
    (host : String) (nd' : NodeDeploy) (d : Deploy)
    → IsPoliced d
    → ((g : ℕ) → contains nd'.gates g ≡ true → allowed d host g ≡ true)
    → IsPoliced (put_node host nd' d)
unfolding put_node
put_node-IsPoliced host nd' d p fits h nd g e c =
    ground (arith, lookup-insert host h nd' d.nodes, eq_iff host h, p h nd g, fits g)

pub same_gates-IsPoliced :
    (host : String) (nd nd' : NodeDeploy) (d : Deploy)
    → lookup host d.nodes ≡ some nd
    → nd'.gates ≡ nd.gates
    → IsPoliced d
    → IsPoliced (put_node host nd' d)
same_gates-IsPoliced host nd nd' d e same p =
    put_node-IsPoliced host nd' d p (λ g c. p host nd g e (rw (← same) c))

contains-authorize_node :
    (stage g : ℕ) (nd : NodeDeploy)
    → contains (authorize_node stage nd).gates g ≡ (contains nd.gates g || stage == g)
unfolding authorize_node
contains-authorize_node stage g nd = elim (==-cases stage g) [
  | inl e ↦ rw (← e) (
      ground (
        arith,
        contains-append nd.gates (stage ∷ []) stage,
        contains-cons stage stage [],
        contains-nil stage,
      ))
  | inr ne ↦
      ground
        (arith, contains-append nd.gates (stage ∷ []) g, contains-cons stage g [], contains-nil g)
]

pub authorize_one-IsPoliced :
    (stage : ℕ) (host : String) (d : Deploy)
    → allowed d host stage ≡ true
    → IsPoliced d
    → IsPoliced (authorize_one stage host d)
unfolding authorize_one
authorize_one-IsPoliced stage host d ok p = elim (Option-cases (lookup host d.nodes)) [
  | inl absent ↦ rw (absent, authorize_one) p
  | inr (nd, e) ↦
      rw (e, authorize_one)
        (put_node-IsPoliced host (authorize_node stage nd) d p λ g c. elim (==-cases stage g) [
          | inl is_stage ↦ rw (← is_stage) ok
          | inr ne ↦ ground (arith, contains-authorize_node stage g nd, p host nd g e)
        ])
]

pub authorize_one-master :
    (stage : ℕ) (host : String) (d : Deploy) → (authorize_one stage host d).master ≡ d.master
unfolding authorize_one
authorize_one-master stage host d = ground arith

pub authorize_one-step :
    (stage : ℕ) (host : String) (d : Deploy)
    → (authorize_one stage host d).manual_step ≡ d.manual_step
unfolding authorize_one
authorize_one-step stage host d = ground arith

pub authorize_all-IsPoliced :
    (stage : ℕ) (ns : List Node) (d : Deploy)
    → All (λ n. allowed d n.hostname stage ≡ true) ns
    → IsPoliced d
    → IsPoliced (authorize_all stage ns d)
unfolding authorize_all
authorize_all-IsPoliced stage [] d ok p = p
authorize_all-IsPoliced stage (n ∷ ns) d ok p =
    authorize_all-IsPoliced stage ns (authorize_one stage n.hostname d)
      (rw (authorize_one-master stage n.hostname d, authorize_one-step stage n.hostname d) ok.1)
      (authorize_one-IsPoliced stage n.hostname d ok.0 p)

-- A later step allows what an earlier one does.
pub next_step-IsPoliced :
    (d : Deploy) → IsPoliced d → IsPoliced (record d { manual_step = d.manual_step + 1 })
next_step-IsPoliced d p h nd g e c = ground (arith, p h nd g)
