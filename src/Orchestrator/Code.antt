-- ===== src/Orchestrator/Code.antt =====
-- internal/orchestrator/errcodes.go: the failure codes that the manager sets.
use cube_cos_driver.Orchestrator.Record.{ErrCode}

abbrev pub bmc_unreachable : ErrCode
bmc_unreachable = "BMC_UNREACHABLE"

abbrev pub bmc_bootdev : ErrCode
bmc_bootdev = "BMC_BOOTDEV"

abbrev pub bmc_power : ErrCode
bmc_power = "BMC_POWER"

abbrev pub pxe_timeout : ErrCode
pxe_timeout = "PXE_TIMEOUT"

abbrev pub pf_carrier : ErrCode
pf_carrier = "PF_CARRIER"

abbrev pub pf_ping : ErrCode
pf_ping = "PF_PING"

abbrev pub pf_skew : ErrCode
pf_skew = "PF_CLOCK_SKEW"

abbrev pub apply_failed : ErrCode
apply_failed = "APPLY_FAILED"

abbrev pub cancelled : ErrCode
cancelled = "CANCELLED"
