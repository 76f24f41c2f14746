-- ===== src/Orchestrator/Gate.antt =====
-- internal/orchestrator/sel.go: the stages of a go record, which a node waits for on its BMC.
use cube_cos_driver.Base.{ℕ}

abbrev pub restore : ℕ
restore = 1

abbrev pub reboot : ℕ
reboot = 2

abbrev pub apply : ℕ
apply = 3

abbrev pub set_ready : ℕ
set_ready = 4
