-- ===== src/Gateway/Controller/Process.antt =====
-- crates/gateway/src/client/controller.rs: how a line of input is performed and answered.
use trust.Prelude.{none, some, [], ◌∷◌, ◌++◌, Text, codes, nat_eq, text_eq, ◌==◌, if◌then◌else◌}
use trust.AppError.{AppError, get_code, to_string, gen_with_msg_and_err}
use trust.Channel.{send, send_error}
use trust.Result.{Result, ok, err, panic, ◌>>◌}
use trust.Control.Codes.{code_bad_request, code_internal_server_error}
use trust.Control.Request
use trust.Control.Request.{
  Request, CommandParser, no_request, about, connections, ping, proxies, services, quit, start,
  stop, is_empty,
}
use trust.Gateway.Controller.{
  ControlPlane, Outside, State, closing, newline, prepare_response, with_events, write,
}
use trust.Gateway.Controller.Commands.{process_cmd}

-- The answer is sent, unless it is empty; if it cannot be, the connection is to be closed.
unfoldable pub write_response : Text → ControlPlane → Result (Unit {0}) × ControlPlane
write_response t c =
    if is_empty t
    then (ok tt, c)
    else (let sent = send (write (t ++ newline ∷ [])) c.event_channel_sender in
        if sent.0 then (ok tt, with_events c sent.1) else (
          err (
              gen_with_msg_and_err (codes "Error sending client stream write channel event")
                send_error),
          with_events c (send closing sent.1).1,
        ))

module _ (o : Outside) where
  -- The answer for an error, by its code.
  unfoldable pub error_response : AppError → Request → Result Text
  unfolding prepare_response get_code to_string
  error_response e request = elim (get_code e) [
    | some code ↦
        if code == code_bad_request
        then prepare_response o code none request none
        else prepare_response o code (some (to_string e)) request none
    | none ↦ prepare_response o code_internal_server_error (some (to_string e)) request none
  ]

  -- A request, or the error of reading it.
  unfoldable pub perform : Result Request → State → Result (Request × Result Text) × State
  unfolding process_cmd
  perform (ok request) s =
      let r = process_cmd o request s in
      (elim r.0 [ ok t ↦ ok (request, ok t) | err e ↦ ok (request, err e) | panic ↦ panic ], r.1)
  perform (err e) s = (ok (no_request, err e), s)
  perform panic s = (panic, s)

  abbrev pub unserializable : AppError → Text
  unserializable e = codes "Error serializing error response: err=" ++ o.debug_error e

  abbrev pub or_unserializable : Result Text → Result Text
  or_unserializable (ok t) = ok t
  or_unserializable (err e) = ok (unserializable e)
  or_unserializable panic = panic

  -- `unwrap_or_else`: the text of an answer.
  abbrev pub response_text : Request → Result Text → Result Text
  response_text req (ok t) = ok t
  response_text req (err e) = or_unserializable (error_response e req)
  response_text req panic = panic

  abbrev pub conclude : Request → Result Text → State → Result Request × State
  conclude req (ok t) (c, m) = let w = write_response t c in (w.0 >> ok req, (w.1, m))
  conclude req (err e) s = (err e, s)
  conclude req panic s = (panic, s)

  -- `process_request`.
  unfoldable pub process_request : Text → State → Result Request × State
  unfolding Request.parse perform error_response write_response
  process_request command_line s =
      let done = perform (Request.parse o.parser command_line) s in
      elim done.0 [
        | ok (request, response) ↦ conclude request (response_text request response) done.1
        | err e ↦ (err e, done.1)
        | panic ↦ (panic, done.1)
      ]
