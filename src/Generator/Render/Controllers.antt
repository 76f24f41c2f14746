-- ===== src/Generator/Render/Controllers.antt =====
-- The controller that a node's policy names.
use Prim.Native.String.{String}
use cube_cos_driver.Base.{
  ℕ, Bool, true, false, not, ◌&&◌, ◌||◌, all_of, any_of, ◌≡◌, refl, ◌∙◌, ◌⊎◌, inl, inr, List, [],
  ◌∷◌, ◌++◌, none, some, arith, str_eq, eq_iff, get_elem?, if◌then◌else◌, Bool-cases, &&-true,
}
use cube_cos_driver.Clusters.{
  ClusterDetail, ClusterConfig, NodeConfig, has_control_func, valid_role,
}
use cube_cos_driver.Clusters.Checks.{all_of-get_elem?, any_of-get_elem?, not-false}
use cube_cos_driver.Clusters.Networks.{Networks}
use cube_cos_driver.Clusters.Validate.{validate}
use cube_cos_driver.Clusters.Validate.Accepted.{is_complete, validate-accepted}
use cube_cos_driver.Generator.Yaml.{Value, nil, text, flag, header, kv, written}
use cube_cos_driver.Generator.Render.{
  ControlInfo, get_control_info, cluster_options, first_or, controller, cubesys_lines,
  after_controller, render_cubesys,
}

-- The value names something.
unfoldable names_one : Value → Bool
names_one nil = false
names_one (text s) = not (str_eq s "")
names_one _ = true

-- The controller of the node's policy.
abbrev controller_of : ClusterDetail → NodeConfig → Value
controller_of c n =
    let cc = c.cluster_config in
    controller cc (get_control_info c.node_data)
      (if cc.ha then text cc.ha_settings.virtual_hostname else nil) (cluster_options n.role)

-- The first control node of complete ones has a name.
first_or-named :
    (v : Value) (ns : List NodeConfig)
    → all_of is_complete ns ≡ true
    → any_of (λ n. has_control_func n.role) ns ≡ true
    → names_one (first_or v (get_control_info ns).hostnames) ≡ true
unfolding get_control_info names_one is_complete
first_or-named v [] h k = ground arith
first_or-named v (n ∷ ns) h k = elim (Bool-cases (has_control_func n.role)) [
  | inl e ↦ rw e (&&-true _ _ (&&-true _ _ h).0).0
  | inr e ↦ rw e (first_or-named v ns (&&-true _ _ h).1 (ground arith))
]

-- A role that is one and has no control function.
plain_role :
    (role : String)
    → valid_role role ≡ true
    → has_control_func role ≡ false
    → (role ≡ "compute") ⊎ (role ≡ "storage")
unfolding valid_role has_control_func
plain_role role h k = ground (arith, eq_iff "compute" role, eq_iff "storage" role)

-- Its options have ctrlHostname once.
controller-plain_role :
    (cc : ClusterConfig) (ctl : ControlInfo) (v : Value) (role : String)
    → (role ≡ "compute") ⊎ (role ≡ "storage")
    → controller cc ctl v (cluster_options role)
      ≡ (if cc.ha then text cc.ha_settings.virtual_hostname else first_or v ctl.hostnames)
unfolding controller cluster_options
controller-plain_role cc ctl v role (inl e) = rw e refl
controller-plain_role cc ctl v role (inr e) = rw e refl

ha_named :
    (ha : Bool) (ip host : String) (v : Value)
    → (ha && (str_eq ip "" || str_eq host "")) ≡ false
    → names_one v ≡ true
    → names_one (if ha then text host else v) ≡ true
unfolding names_one
ha_named true ip host v h k = ground arith
ha_named false ip host v h k = k

one_default :
    (ha : Bool) (host : String) (hosts : List String)
    → (if ha then text host else first_or (if ha then text host else nil) hosts)
      ≡ (if ha then text host else first_or nil hosts)
one_default true host hosts = refl
one_default false host hosts = refl

complete-role : (n : NodeConfig) → is_complete n ≡ true → valid_role n.role ≡ true
unfolding is_complete
complete-role n h = (&&-true _ _ (&&-true _ _ h).1).0

either : (a b : Bool) → (not a || b) ≡ true → a ≡ true → b ≡ true
either a b h k = ground arith

controller_of-named :
    (quote : String → String) (byte_length : String → ℕ) (parse_ip : String → Bool)
    (nets : Networks) (c : ClusterDetail) (i : ℕ) (n : NodeConfig)
    → validate quote byte_length parse_ip nets c ≡ none
    → get_elem? c.node_data i ≡ some n
    → has_control_func n.role ≡ false
    → (controller_of c n ≡ (
        if c.cluster_config.ha
        then text c.cluster_config.ha_settings.virtual_hostname
        else first_or nil (get_control_info c.node_data).hostnames))
      × (names_one (controller_of c n) ≡ true)
controller_of-named quote byte_length parse_ip nets c i n h at plain =
    let (long, (there, complete, distinct), led, virtual, mgmt) =
      validate-accepted quote byte_length parse_ip nets c h in
    let n_complete = all_of-get_elem? is_complete c.node_data i n complete at in
    let other =
      any_of-get_elem? (λ m. not (has_control_func m.role)) c.node_data i n at
        (not-false (has_control_func n.role) plain) in
    let control =
      either (any_of (λ m. not (has_control_func m.role)) c.node_data)
        (any_of (λ m. has_control_func m.role) c.node_data) led other in
    let first = first_or-named nil c.node_data complete control in
    let named =
      controller-plain_role c.cluster_config (get_control_info c.node_data) _ n.role
        (plain_role n.role (complete-role n n_complete) plain)
      ∙ one_default c.cluster_config.ha _ (get_control_info c.node_data).hostnames in
    (
      named,
      rw named (
          ha_named c.cluster_config.ha c.cluster_config.ha_settings.virtual_ip
            c.cluster_config.ha_settings.virtual_hostname _ virtual first),
    )

-- The first control node's name.
abbrev pub first_control : List NodeConfig → String
first_control [] = ""
first_control (n ∷ ns) = if has_control_func n.role then n.hostname else first_control ns

first_or-first_control :
    (ns : List NodeConfig)
    → names_one (first_or nil (get_control_info ns).hostnames) ≡ true
    → first_or nil (get_control_info ns).hostnames ≡ text (first_control ns)
unfolding get_control_info names_one
first_or-first_control [] h = absurd (ground arith)
first_or-first_control (n ∷ ns) h = elim (Bool-cases (has_control_func n.role)) [
  | inl e ↦ rw e refl
  | inr e ↦ rw e (first_or-first_control ns (ground arith))
]

-- The name of a policy's controller: the virtual one of a HA cluster, or the first control node's.
abbrev pub controller_name : ClusterDetail → String
controller_name c =
    if c.cluster_config.ha
    then c.cluster_config.ha_settings.virtual_hostname
    else first_control c.node_data

named_text :
    (ha : Bool) (host : String) (ns : List NodeConfig)
    → names_one (if ha then text host else first_or nil (get_control_info ns).hostnames) ≡ true
    → (if ha then text host else first_or nil (get_control_info ns).hostnames)
      ≡ text (if ha then host else first_control ns)
named_text true host ns h = refl
named_text false host ns h = first_or-first_control ns h

text_named : (s : String) (v : Value) → v ≡ text s → names_one v ≡ true → str_eq s "" ≡ false
unfolding names_one
text_named s v e h = ground arith

-- In a description that Validate accepts, the policy file of every node without the control function
-- has, after the document's head and six lines, the line that names its controller: the virtual name
-- of a HA cluster, or else the first control node, neither of them empty.
pub render_cubesys-validate :
    (quote : String → String) (byte_length : String → ℕ) (parse_ip : String → Bool)
    (nets : Networks) (c : ClusterDetail) (i : ℕ) (n : NodeConfig)
    → validate quote byte_length parse_ip nets c ≡ none
    → get_elem? c.node_data i ≡ some n
    → has_control_func n.role ≡ false
    → (str_eq (controller_name c) "" ≡ false)
      × (rest : List String) × (render_cubesys n c.cluster_config (get_control_info c.node_data)
          ≡ written (
              header "cubesys/cubesys1_0.yml"
              ++ (kv 0 "name" (text "cubesys")
                  ∷ kv 0 "version" (text "1.0")
                  ∷ kv 0 "role" (text n.role)
                  ∷ kv 0 "domain" (text "default")
                  ∷ kv 0 "ha" (flag c.cluster_config.ha)
                  ∷ kv 0 "saltkey" (flag true)
                  ∷ kv 0 "controller" (text (controller_name c))
                  ∷ rest)))
unfolding render_cubesys cubesys_lines
render_cubesys-validate quote byte_length parse_ip nets c i n h at plain =
    let (chosen, named) = controller_of-named quote byte_length parse_ip nets c i n h at plain in
    let virtual = c.cluster_config.ha_settings.virtual_hostname in
    let spelled : controller_of c n ≡ text (controller_name c) =
      chosen ∙ named_text c.cluster_config.ha virtual c.node_data (rw (← chosen) named) in
    (
      text_named (controller_name c) (controller_of c n) spelled named,
      after_controller n c.cluster_config (get_control_info c.node_data),
      rw spelled refl,
    )
