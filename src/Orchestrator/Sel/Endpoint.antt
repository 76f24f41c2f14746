-- ===== src/Orchestrator/Sel/Endpoint.antt =====
-- The endpoint record survives the way through the log.
use cube_cos_driver.Base.{ℕ, ◌<◌, ◌≡◌, true, false, arith, if◌then◌else◌}
use cube_cos_driver.Orchestrator.Sel.{Ip4, is_unset, encode_endpoint, decode_endpoint}

-- An address and a 16-bit port come back as they were packed, and are valid exactly when the
-- address is not all zero.
pub decode_endpoint-encode_endpoint :
    (ip : Ip4) (port : ℕ)
    → port < 65536
    → decode_endpoint (encode_endpoint ip port) ≡ (ip, port, if is_unset ip then false else true)
unfolding decode_endpoint encode_endpoint
decode_endpoint-encode_endpoint ip port h = ground arith
