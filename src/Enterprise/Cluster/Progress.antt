-- ===== src/Enterprise/Cluster/Progress.antt =====
-- internal/enterprise/manager.go: what is told about a framework that is being made.
use Prim.Native.String.{String}
use cube_cos_driver.Base.{
  ℕ, not, ◌==◌, List, [], ◌∷◌, ◌++◌, keep, map, length, Option, none, some, str_eq, if◌then◌else◌,
}
use cube_cos_driver.Enterprise.Text.{Library, sprint, join}
use cube_cos_driver.Enterprise.Cluster.{Client, Action, ◌>>=◌, give, collected}
use cube_cos_driver.Enterprise.Cluster.Probe.{registry_probe, trimmed, first_of}

abbrev pub framework_kubectl : String
framework_kubectl = "KUBECONFIG=/etc/rancher/k3s/k3s.yaml kubectl"

-- `ingressLBName` and `statusLabel`.
unfoldable pub ingress_lb_name : String → String
ingress_lb_name name = sprint ("kube_service_" ∷ name ∷ "_kube-system_ingress-lb" ∷ [])

unfoldable pub status_label : String → String
status_label st = if str_eq st "" then "unknown" else st

abbrev pub last_of : List String → Option String
last_of [] = none
last_of (x ∷ xs) = elim (last_of xs) [ none ↦ some x | some y ↦ some y ]

-- The phases without repetition, and how many machines are in one.
abbrev pub distinct : List String → List String
distinct [] = []
distinct (x ∷ xs) = x ∷ keep (λ y. not (str_eq y x)) (distinct xs)

abbrev pub count : String → List String → ℕ
count p ps = length (keep (λ q. str_eq q p) ps)

module _ (lib : Library) where
  -- How many nodes are ready, and the phases of the others.
  unfoldable pub phase_parts : List String → String
  phase_parts phases =
      let others = lib.sort (
        map (λ p. sprint (lib.decimal (count p phases) ∷ " " ∷ p ∷ []))
          (keep (λ p. not (str_eq p "Running")) (distinct phases))) in
      let ready = sprint (
        "nodes "
        ∷ lib.decimal (count "Running" phases)
        ∷ "/"
        ∷ lib.decimal (length phases)
        ∷ " ready"
        ∷ []) in
      elim others [ [] ↦ ready | (q ∷ qs) ↦ sprint (ready ∷ "; " ∷ join ", " (q ∷ qs) ∷ []) ]

module _ (lib : Library) (c : Client) where
  -- `frameworkPostNodeProgress`.
  unfoldable pub framework_post_node_progress : String → String → Action c.S String
  unfolding registry_probe ingress_lb_name
  framework_post_node_progress name lbip = do
    out ← collected c (
        sprint (
          "source /etc/admin-openrc.sh && openstack loadbalancer list --name "
          ∷ ingress_lb_name name
          ∷ " -f value -c provisioning_status 2>/dev/null"
          ∷ []))
    lb ← give (elim (first_of (trimmed lib out)) [
      | none ↦ "ingress LB not created yet"
      | some st ↦ sprint ("ingress LB " ∷ st ∷ [])
    ])
    registry ←
        (if str_eq lbip "" then give [] else (do
          code ← registry_probe lib c name lbip
          give (sprint ("registry HTTP " ∷ code ∷ []) ∷ [])))
    pods ← collected c (
        sprint (
          "KUBECONFIG=/opt/appfw/kubeconfig kubectl get pods -A --no-headers 2>/dev/null | "
          ∷ "grep -viE 'running|completed' | awk '{print $2\"=\"$4}' | head -3" ∷ []))
    give (
        join "; " (
          lb ∷ registry ++ elim (trimmed lib pods) [
            | [] ↦ []
            | (p ∷ ps) ↦ sprint ("pods pending: " ∷ join ", " (p ∷ ps) ∷ []) ∷ []
          ]))

  -- `frameworkProgress`: nothing when no machine is known.
  unfoldable pub framework_progress : String → String → Action c.S String
  unfolding phase_parts framework_post_node_progress
  framework_progress name lbip = do
    out ← collected c (
        sprint (
          framework_kubectl ∷ " get machines.cluster.x-k8s.io -A -l cluster.x-k8s.io/cluster-name="
          ∷ name ∷ " --no-headers -o custom-columns=P:.status.phase 2>/dev/null" ∷ []))
    described name lbip (keep (λ p. not (str_eq p "<none>")) (trimmed lib out))
    where
      with_post : String → String → List String → String → Action c.S String
      with_post name lbip phases text =
          if count "Running" phases == length phases
          then (do
            post ← framework_post_node_progress name lbip
            give (if str_eq post "" then text else sprint (text ∷ "; " ∷ post ∷ [])))
          else give text

      described : String → String → List String → Action c.S String
      described name lbip [] = give ""
      described name lbip (p ∷ ps) = do
        msg ← collected c (
            sprint (
              framework_kubectl
              ∷ " get machines.cluster.x-k8s.io -A -l cluster.x-k8s.io/cluster-name=" ∷ name
              ∷ " -o jsonpath='{range .items[0].status.conditions[*]}{.message}{\"\\n\"}{end}' 2>/dev/null"
              ∷ []))
        with_post name lbip (p ∷ ps) (elim (last_of (trimmed lib msg)) [
          | none ↦ phase_parts lib (p ∷ ps)
          | some m ↦ sprint (phase_parts lib (p ∷ ps) ∷ " — " ∷ m ∷ [])
        ])
