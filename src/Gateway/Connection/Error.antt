-- ===== src/Gateway/Connection/Error.antt =====
-- crates/gateway/src/client/connection.rs: what a client is told of an error.
use trust.Prelude.{
  ℕ, ◌≡◌, inl, inr, refl, Option, none, some, ◌∷◌, [], ◌++◌, Text, codes, nat_eq, Option-cases,
}
use trust.HashMap.{get}
use trust.Text.{show}
use trust.AppError.{AppError, get_code}
use trust.Channel.{Channel, IsOpen, accept, send-IsOpen}
use trust.Result.{ok}
use trust.Gateway.Codes.{response_msgs}
use trust.Gateway.Controller.{ConnectionEvent, write, newline}
use trust.Gateway.Connection.{message_of, message_of_code, unknown_msg, send_error_response}

-- The client learns the code of an error, and no more: not its text, nor the error that caused it.
pub data TellsCode : Option ℕ → Text → Type 0 where
  known : (code : ℕ) (msg : Text) → get code response_msgs ≡ some msg → TellsCode (some code) msg
  unknown :
      (code : ℕ)
      → get code response_msgs ≡ none
      → TellsCode (some code) (codes "[E0520] System error occurred: ref=" ++ show code)
  system : TellsCode none (codes "[E0500] System error occurred")

message_of_code-TellsCode :
    (code : ℕ) → (msg : Text) × (message_of_code code ≡ ok msg) × TellsCode (some code) msg
unfolding message_of_code unknown_msg
message_of_code-TellsCode code = elim (Option-cases (get code response_msgs)) [
  | inl h ↦ (
    codes "[E0520] System error occurred: ref=" ++ show code,
    rw (h, message_of_code) refl,
    unknown code h,
  )
  | inr (msg, h) ↦ (msg, rw (h, message_of_code) refl, known code msg h)
]

message_of-TellsCode :
    (e : AppError) → (msg : Text) × (message_of e ≡ ok msg) × TellsCode (get_code e) msg
unfolding message_of
message_of-TellsCode e = elim (Option-cases (get_code e)) [
  | inl h ↦ (codes "[E0500] System error occurred", rw (h, message_of) refl, rw h system)
  | inr (code, h) ↦
      let (msg, q, tells) = message_of_code-TellsCode code in
      (msg, rw (h, message_of) q, rw h tells)
]

-- An error is always reported. While the connection takes events, reporting an error does not panic
-- and sends one line: the message of its code, or that of an unknown code with the code, or that of a
-- system error where it has no code.
pub send_error_response-TellsCode :
    (e : AppError) (events : Channel ConnectionEvent)
    → IsOpen events
    → (msg : Text) × TellsCode (get_code e) msg
      × (send_error_response e (some events)
          ≡ (ok tt, some (accept (write (msg ++ newline ∷ [])) events)))
unfolding send_error_response
send_error_response-TellsCode e events h =
    let (msg, q, tells) = message_of-TellsCode e in
    (
      msg,
      tells,
      rw (q, send_error_response) (rw (send-IsOpen (write (msg ++ newline ∷ [])) events h) refl),
    )
