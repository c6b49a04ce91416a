-- ===== src/AppError.antt =====
-- crates/common/src/error.rs: the error type of the program. An error value of another library
-- (`Box<dyn Error>`, `io::Error`, `rustls::Error`) is known by its two texts, `{}` and `{:?}`.
use trust.Prelude.{ℕ, Option, none, some, ◌++◌, Text, codes}
use trust.Text.{show}

pub record ForeignError : Type 0 where
  pub display : Text
  pub debug : Text

pub data AppError : Type 0 where
  addr_parse : ForeignError → AppError
  general : Text → AppError
  gen_with_code : ℕ → AppError
  gen_with_code_and_err : ℕ → ForeignError → AppError
  gen_with_code_and_msg : ℕ → Text → AppError
  gen_with_code_and_msg_and_err : ℕ → Text → ForeignError → AppError
  gen_with_err : ForeignError → AppError
  gen_with_msg_and_err : Text → ForeignError → AppError
  io : ForeignError → AppError
  io_with_msg : Text → ForeignError → AppError
  tls : ForeignError → AppError
  would_block : AppError
  stream_eof : AppError

-- `AppError::get_code`.
unfoldable pub get_code : AppError → Option ℕ
get_code (gen_with_code code) = some code
get_code (gen_with_code_and_err code err) = some code
get_code (gen_with_code_and_msg code msg) = some code
get_code (gen_with_code_and_msg_and_err code msg err) = some code
get_code _ = none

-- `impl Display for AppError`.
unfoldable pub to_string : AppError → Text
to_string (addr_parse err) = err.display
to_string (general msg) = msg
to_string (gen_with_code code) = codes "Response: code=" ++ show code
to_string (gen_with_code_and_err code err) =
    codes "Response: code=" ++ (show code ++ (codes ", err=" ++ err.debug))
to_string (gen_with_code_and_msg code msg) =
    codes "Response: code=" ++ (show code ++ (codes ", msg=" ++ msg))
to_string (gen_with_code_and_msg_and_err code msg err) =
    codes "Response: code="
    ++ (show code ++ (codes ", msg=" ++ (msg ++ (codes ", err=" ++ err.debug))))
to_string (gen_with_err err) = err.display
to_string (gen_with_msg_and_err msg err) =
    codes "Error: msg=" ++ (msg ++ (codes ", err=" ++ err.debug))
to_string (io err) = err.display
to_string (io_with_msg msg err) = codes "IO Error: msg=" ++ (msg ++ (codes ", err=" ++ err.debug))
to_string (tls err) = err.display
to_string would_block = codes "WouldBlock Error"
to_string stream_eof = codes "StreamEOF Error"
