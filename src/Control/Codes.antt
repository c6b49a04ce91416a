-- ===== src/Control/Codes.antt =====
-- The status codes of crates/common/src/control/response.rs.
use trust.Prelude.{ℕ}

abbrev pub code_ok : ℕ
code_ok = 200

abbrev pub code_bad_request : ℕ
code_bad_request = 400

abbrev pub code_forbidden : ℕ
code_forbidden = 403

abbrev pub code_not_found : ℕ
code_not_found = 404

abbrev pub code_internal_server_error : ℕ
code_internal_server_error = 500
