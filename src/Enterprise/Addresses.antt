-- ===== src/Enterprise/Addresses.antt =====
-- internal/enterprise/manager.go: the addresses of an installation, its check and its suggestions.
pub mod Distinct
use Prim.Native.String.{String}
use cube_cos_driver.Base.{
  ℕ, zero, suc, Bool, true, false, not, ◌&&◌, ◌||◌, List, [], ◌∷◌, ◌++◌, keep, map, Option, none,
  some, str_eq, if◌then◌else◌,
}
use cube_cos_driver.Enterprise.Text.{Library, sprint, shell_quote}
use cube_cos_driver.Enterprise.Records.{InstallParams}
use cube_cos_driver.Enterprise.Cluster.Probe.{slice_has}

abbrev pub take : {A : Type 0} → ℕ → List A → List A
take zero xs = []
take (suc n) [] = []
take (suc n) (x ∷ xs) = x ∷ take n xs

-- `advisorLBAddrProbe`.
unfoldable pub advisor_lb_addr_probe : Library → String → String
advisor_lb_addr_probe lib fw =
    let name : String = if str_eq fw "" then ".*" else lib.quote_meta fw in
    let re : String = sprint ("^kube_service_" ∷ name ∷ "_cube-advisor_cube-advisor$" ∷ []) in
    sprint (
      "source /etc/admin-openrc.sh && for v in $(openstack loadbalancer list -f json 2>/dev/null | jq -r --arg n "
      ∷ shell_quote re
      ∷ " '.[] | select(.name | test($n)) | .id'); do openstack loadbalancer show \"$v\" -f json 2>/dev/null | "
      ∷ "jq -r '\"vip \\(.vip_address) \\(.vip_port_id)\"' | while read -r _ a p; do echo \"vip $a\"; "
      ∷ "openstack floating ip list --port \"$p\" -f value -c \"Floating IP Address\" 2>/dev/null | "
      ∷ "sed 's/^/fip /'; done; done"
      ∷ [])

-- What the lines of that probe have given so far: the addresses, the floating IP and the VIP.
pub record Own : Type 0 where
  pub all : List String
  pub given : String
  pub vip : String

unfoldable pub read_own : Own → List String → Own
read_own o (kind ∷ addr ∷ []) = record {
  all = o.all ++ addr ∷ [];
  given = if str_eq kind "fip" && str_eq o.given "" then addr else o.given;
  vip =
      if str_eq kind "fip" && str_eq o.given ""
      then o.vip
      else if str_eq kind "vip" && str_eq o.vip ""
      then addr
      else o.vip;
}
read_own o _ = o

unfoldable pub read_all : Library → Own → List String → Own
unfolding read_own
read_all lib o [] = o
read_all lib o (l ∷ ls) = read_all lib (read_own o (lib.fields l)) ls

-- `parseOwnLBAddrs`.
unfoldable pub parse_own_lb_addrs : Library → List String → List String × String
unfolding read_all
parse_own_lb_addrs lib lines =
    let o = read_all lib (record { all = []; given = ""; vip = "" }) lines in
    (o.all, if str_eq o.given "" then o.vip else o.given)

-- The closure `take` of `suggestAddrs`, which is called when an address is wanted.
abbrev pub next_free : String → List String → String × List String
next_free wanted rest =
    if not (str_eq wanted "")
    then (wanted, rest)
    else elim rest [ [] ↦ ("", []) | (a ∷ as_) ↦ (a, as_) ]

-- `suggestAddrs`.
unfoldable pub suggest_addrs :
    List String → String → String → List String → ℕ → String × String × List String
suggest_addrs free fw_lb own_lb own_console n =
    let rest =
      keep (λ a. not (str_eq a fw_lb) && (not (str_eq a own_lb) && not (slice_has own_console a)))
        free in
    let (fw, rest1) = next_free fw_lb rest in
    let (own, rest2) = next_free own_lb rest1 in
    elim own_console [ [] ↦ (fw, own, take n rest2) | (c ∷ cs) ↦ (fw, own, c ∷ cs) ]

-- The loop of `checkAdvisorAddrs` over the pool; an error, or the addresses that were seen.
pub data Seen : Type 0 where
  bad : String → Seen
  seen : List String → Seen

unfoldable pub check_pool : Library → String → List String → List String → Seen
check_pool lib lb_ip before [] = seen before
check_pool lib lb_ip before (a ∷ pool) =
    let rest = check_pool lib lb_ip before pool in
    let rest' = check_pool lib lb_ip (a ∷ before) pool in
    if str_eq a ""
    then rest
    else if not (lib.parse_ip a)
    then bad (sprint ("web-console address " ∷ lib.quote a ∷ " is not an IP address" ∷ []))
    else if str_eq a lb_ip
    then bad (
        sprint (
          "Advisor LB IP " ∷ a
          ∷ " is also in the web-console pool — the advisor and each console origin need "
          ∷ "their own address" ∷ []))
    else if slice_has before a
    then bad (
        sprint (
          "web-console address " ∷ a
          ∷ " is listed twice — each console origin needs its own address" ∷ []))
    else rest'

unfoldable pub check_framework_addr : InstallParams → Seen → Option String
check_framework_addr p (bad why) = some why
check_framework_addr p (seen addrs) =
    if not (str_eq p.lb_ip "") && str_eq p.lb_ip p.advisor_lb_ip
    then some (
        sprint (
          "Advisor LB IP " ∷ p.lb_ip
          ∷ " is the app-framework's LB IP — pick a separate free address" ∷ []))
    else if not (str_eq p.lb_ip "") && slice_has addrs p.lb_ip
    then some (
        sprint (
          "web-console address " ∷ p.lb_ip
          ∷ " is the app-framework's LB IP — pick a separate free address" ∷ []))
    else none

-- `checkAdvisorAddrs`, which gives an error or nothing.
unfoldable pub check_advisor_addrs : Library → InstallParams → Option String
unfolding check_pool check_framework_addr
check_advisor_addrs lib p =
    if not (str_eq p.advisor_lb_ip "") && not (lib.parse_ip p.advisor_lb_ip)
    then some (sprint ("Advisor LB IP " ∷ lib.quote p.advisor_lb_ip ∷ " is not an IP address" ∷ []))
    else check_framework_addr p (check_pool lib p.advisor_lb_ip [] p.advisor_pool)
