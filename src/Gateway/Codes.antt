-- ===== src/Gateway/Codes.antt =====
-- The response codes and messages of crates/gateway/src/config.rs.
use trust.Prelude.{ℕ, [], ◌∷◌, Text, codes, nat_eq}
use trust.HashMap.{HashMap}

abbrev pub respcode_0403_forbidden : ℕ
respcode_0403_forbidden = 403

abbrev pub respcode_0420_invalid_client_certificate : ℕ
respcode_0420_invalid_client_certificate = 420

abbrev pub respcode_0421_unknown_user : ℕ
respcode_0421_unknown_user = 421

abbrev pub respcode_0422_inactive_user : ℕ
respcode_0422_inactive_user = 422

abbrev pub respcode_0423_invalid_request : ℕ
respcode_0423_invalid_request = 423

abbrev pub respcode_0424_invalid_alpn_protocol : ℕ
respcode_0424_invalid_alpn_protocol = 424

abbrev pub respcode_0425_inactive_service_proxy : ℕ
respcode_0425_inactive_service_proxy = 425

abbrev pub respcode_0500_system_error : ℕ
respcode_0500_system_error = 500

abbrev pub respcode_0520_unknown_code : ℕ
respcode_0520_unknown_code = 520

-- `RESPONSE_MSGS`.
abbrev pub response_msgs : HashMap ℕ Text
response_msgs =
    (respcode_0403_forbidden, codes "[E0403] Access is forbidden")
    ∷ (respcode_0420_invalid_client_certificate, codes "[E0420] Invalid client certificate")
    ∷ (respcode_0421_unknown_user, codes "[E0421] Unknown user is inactive")
    ∷ (respcode_0422_inactive_user, codes "[E0422] User account is inactive")
    ∷ (respcode_0423_invalid_request, codes "[E0423] Invalid request")
    ∷ (respcode_0424_invalid_alpn_protocol, codes "[E0424] Invalid ALPN protocol")
    ∷ (respcode_0425_inactive_service_proxy, codes "[E0425] Inactive service proxy")
    ∷ (respcode_0500_system_error, codes "[E0500] System error occurred")
    ∷ (respcode_0520_unknown_code, codes "[E0520] System error occurred")
    ∷ []
