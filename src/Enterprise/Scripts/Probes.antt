-- ===== src/Enterprise/Scripts/Probes.antt =====
-- internal/enterprise/manager.go: the shell texts that ask a cluster about its addresses and its
-- storage.
use Prim.Native.String.{String}
use cube_cos_driver.Base.{[], ◌∷◌}
use cube_cos_driver.Enterprise.Text.{sprint}

-- The first free addresses of the public network.
abbrev pub lb_ip_pool_probe : String → String
lb_ip_pool_probe want = sprint (
    "source /etc/admin-openrc.sh && sub=$(openstack subnet list --network p"
    ∷ "ublic -f value -c ID | head -1) && [ -n \"$sub\" ] && python3 -c '\n"
    ∷ "import json,subprocess,ipaddress,re,sys\n"
    ∷ "from concurrent.futures import ThreadPoolExecutor\n" ∷ "sub=sys.argv[1]\n"
    ∷ "subj=json.loads(subprocess.check_output([\"openstack\",\"subnet\",\"show\",s"
    ∷ "ub,\"-f\",\"json\"]))\n" ∷ "pools=subj.get(\"allocation_pools\") or []\n"
    ∷ "portj=json.loads(subprocess.check_output([\"openstack\",\"port\",\"list\",\"-"
    ∷ "-network\",\"public\",\"-f\",\"json\"]))\n"
    ∷ "used=set(re.findall(r\"\\d+\\.\\d+\\.\\d+\\.\\d+\", json.dumps(portj)))\n"
    ∷ "def live(ip):\n" ∷ "    try:\n"
    ∷ "        out=subprocess.check_output([\"ip\",\"-o\",\"route\",\"get\",ip],text=" ∷ "True)\n"
    ∷ "    except Exception:\n" ∷ "        return False\n"
    ∷ "    m=re.search(r\" dev (\\S+)\", out)\n" ∷ "    if not m:\n" ∷ "        return False\n"
    ∷ "    return subprocess.call([\"arping\",\"-c2\",\"-w2\",\"-I\",m.group(1),ip],s"
    ∷ "tdout=subprocess.DEVNULL,stderr=subprocess.DEVNULL)==0\n" ∷ "cands=[]\n"
    ∷ "for p in pools:\n"
    ∷ "    a=int(ipaddress.ip_address(p[\"start\"])); b=int(ipaddress.ip_addres"
    ∷ "s(p[\"end\"]))\n" ∷ "    for i in range(a,b+1):\n"
    ∷ "        ip=str(ipaddress.ip_address(i))\n" ∷ "        if ip not in used:\n"
    ∷ "            cands.append(ip)\n" ∷ "        if len(cands)>=64:\n" ∷ "            break\n"
    ∷ "    if len(cands)>=64:\n" ∷ "        break\n"
    ∷ "want=int(sys.argv[2]) if len(sys.argv)>2 else 1\n" ∷ "found=[]\n"
    ∷ "with ThreadPoolExecutor(max_workers=32) as ex:\n"
    ∷ "    for ip,busy in zip(cands,ex.map(live,cands)):\n" ∷ "        if not busy:\n"
    ∷ "            found.append(ip)\n" ∷ "            if len(found)>=want:\n"
    ∷ "                break\n" ∷ "for ip in found:\n" ∷ "    print(ip)\n" ∷ "' \"$sub\" \"" ∷ want
    ∷ "\"" ∷ [])

-- Whether an address is held or answers.
abbrev pub lb_ip_taken_probe : String → String
lb_ip_taken_probe addr = sprint (
    "source /etc/admin-openrc.sh && addr=" ∷ addr
    ∷ " && { openstack port list --fixed-ip ip-address=\"$addr\" -f value -c id"
    ∷ " 2>/dev/null; openstack floating ip list --floating-ip-address \"$addr\""
    ∷ " -f value -c id 2>/dev/null; } | grep -q . && echo taken || { dev=$(ip"
    ∷ " -o route get \"$addr\" 2>/dev/null | sed -n \"s/.* dev \\([^ ]*\\).*/\\1/p\""
    ∷ "); [ -n \"$dev\" ] && arping -c2 -w2 -I \"$dev\" \"$addr\" >/dev/null 2>&1 &"
    ∷ "& echo taken || echo free; }" ∷ [])

-- The addresses of the advisor's console origins.
abbrev pub advisor_console_addr_probe : String
advisor_console_addr_probe = sprint (
    "source /etc/admin-openrc.sh && openstack loadbalancer list -f value -c"
    ∷ " name 2>/dev/null | sed -n 's/.*cube-advisor-web-\\([0-9-]*\\)$/\\1/p' | " ∷ "tr '-' '.'"
    ∷ [])

-- The default type of volume.
abbrev pub storage_probe : String
storage_probe = sprint (
    "source /etc/admin-openrc.sh && { openstack volume type list --default "
    ∷ "-f value -c Name 2>/dev/null; openstack volume type list -f value -c N"
    ∷ "ame 2>/dev/null; } | grep -v '^$' | head -1" ∷ [])

-- The address that the registry of a framework resolves to.
abbrev pub existing_framework_lb_probe : String → String
existing_framework_lb_probe framework = sprint (
    "ip=$(hostname -I | awk '{print $1}'); dig @$ip +short " ∷ framework
    ∷ ".registry.cubecos.com 2>/dev/null | grep -oE '^([0-9]+\\.){3}[0-9]+$' |" ∷ " head -1" ∷ [])
