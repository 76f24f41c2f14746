-- ===== src/Enterprise/Scripts.antt =====
-- internal/enterprise/plan.go: the shell texts of the plan's steps.
pub mod Probes
use Prim.Native.String.{String}
use cube_cos_driver.Base.{List, [], ◌∷◌}
use cube_cos_driver.Enterprise.Text.{sprint}

-- The load balancers that a deleted framework leaves behind.
abbrev pub framework_lb_sweep : String → String
framework_lb_sweep fw = sprint (
    "source /etc/admin-openrc.sh 2>/dev/null\n" ∷ "fw=" ∷ fw ∷ "\n" ∷ "found=0\n"
    ∷ "for lb in $(openstack loadbalancer list -f value -c id -c name 2>/dev/"
    ∷ "null | awk -v p=\"kube_service_${fw}_\" '$2 ~ (\"^\" p){print $1}'); do\n" ∷ "  found=1\n"
    ∷ "  vip=$(openstack loadbalancer show \"$lb\" -f value -c vip_address 2>/d" ∷ "ev/null)\n"
    ∷ "  for fip in $(openstack floating ip list --fixed-ip-address \"$vip\" -f"
    ∷ " value -c ID 2>/dev/null); do\n"
    ∷ "    openstack floating ip delete \"$fip\" 2>/dev/null && echo \"freed flo"
    ∷ "ating IP mapped to $vip\"\n" ∷ "  done\n"
    ∷ "  openstack loadbalancer delete \"$lb\" --cascade 2>/dev/null && echo \"d"
    ∷ "eleted orphaned ingress LB $lb\"\n" ∷ "done\n"
    ∷ "[ \"$found\" = 0 ] && echo \"no orphaned kube_service_${fw}_* load balanc"
    ∷ "ers to reap\"\n" ∷ [])

-- The load balancer of the advisor alone.
abbrev pub advisor_lb_sweep_script : String → String
advisor_lb_sweep_script fw = sprint (
    "source /etc/admin-openrc.sh 2>/dev/null\n" ∷ "fw=" ∷ fw ∷ "\n" ∷ "found=0\n"
    ∷ "for lb in $(openstack loadbalancer list -f value -c id -c name 2>/dev/"
    ∷ "null | awk -v n=\"kube_service_${fw}_cube-advisor_cube-advisor\" '$2 == "
    ∷ "n {print $1}'); do\n" ∷ "  found=1\n"
    ∷ "  vip=$(openstack loadbalancer show \"$lb\" -f value -c vip_address 2>/d" ∷ "ev/null)\n"
    ∷ "  for fip in $(openstack floating ip list --fixed-ip-address \"$vip\" -f"
    ∷ " value -c ID 2>/dev/null); do\n"
    ∷ "    openstack floating ip delete \"$fip\" 2>/dev/null && echo \"freed flo"
    ∷ "ating IP mapped to $vip\"\n" ∷ "  done\n"
    ∷ "  openstack loadbalancer delete \"$lb\" --cascade 2>/dev/null && echo \"d"
    ∷ "eleted advisor LB $lb\"\n" ∷ "done\n"
    ∷ "[ \"$found\" = 0 ] && echo \"no advisor load balancer to reap\"\n" ∷ "exit 0\n" ∷ [])

-- Whether all that an extpack carries is on the cluster.
abbrev pub extpack_present : String → String
extpack_present image = sprint (
    "source /etc/admin-openrc.sh 2>/dev/null &&\n"
    ∷ "openstack image show manila-service-image >/dev/null 2>&1 &&\n"
    ∷ "openstack image show amphora-x64-haproxy >/dev/null 2>&1 &&\n" ∷ "openstack image show "
    ∷ image ∷ " >/dev/null 2>&1 &&\n"
    ∷ "curl -sf http://localhost:5080/v2/rancher/rancher-agent/tags/list | gr"
    ∷ "ep -q '\"tags\":\\[\"'" ∷ [])
