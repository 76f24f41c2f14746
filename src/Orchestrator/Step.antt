-- ===== src/Orchestrator/Step.antt =====
-- internal/orchestrator/model.go: the steps of a manual deploy, which the operator advances.
use cube_cos_driver.Base.{ℕ}

abbrev pub preflight : ℕ
preflight = 1

abbrev pub restore : ℕ
restore = 2

abbrev pub reboot : ℕ
reboot = 3

abbrev pub apply_master : ℕ
apply_master = 4

abbrev pub apply_rest : ℕ
apply_rest = 5

abbrev pub set_ready : ℕ
set_ready = 6
