-- ===== src/Gateway/Controller/Answer.antt =====
-- crates/gateway/src/client/controller.rs: what a line of input sends to the client.
use trust.Prelude.{
  ℕ, ◌≡◌, ◌≢◌, ◌⊎◌, inl, inr, refl, Option, none, some, List, [], ◌∷◌, ◌++◌, Text, arith,
  append-nil, append_assoc, Option-cases, Bool-cases, ◌==◌,
}
use trust.Channel.{IsOpen, send-IsOpen}
use trust.Result.{Result, ok, err, panic, Result-cases}
use trust.AppError.{AppError, get_code, to_string}
use trust.Control.Codes.{code_bad_request, code_internal_server_error}
use trust.Control.Request
use trust.Control.Request.{
  Request, no_request, about, connections, ping, proxies, services, quit, start, stop,
}
use trust.Gateway.Manager.{GatewayServiceMgr}
use trust.Gateway.Controller.{
  Outside, ControlPlane, State, ConnectionEvent, closing, write, prepare_response, newline,
}
use trust.Gateway.Controller.Commands.{process_cmd, process_cmd_quit}
use trust.Gateway.Controller.Process.{
  perform, error_response, write_response, process_request, unserializable, response_text,
}

-- What a request sends before its answer.
abbrev pub before_answer : Request → List ConnectionEvent
before_answer quit = closing ∷ []
before_answer _ = []

-- The line of an answer.
abbrev pub line_of : Text → List ConnectionEvent
line_of [] = []
line_of (x ∷ t) = write (x ∷ t ++ newline ∷ []) ∷ []

-- The connection has sent these events more, and can send others.
abbrev pub HasSent : List ConnectionEvent → ControlPlane → ControlPlane → Type 0
HasSent events c d =
    (d.event_channel_sender.sent ≡ c.event_channel_sender.sent ++ events)
    × IsOpen d.event_channel_sender

module _ (o : Outside) where
  process_cmd-HasSent :
      (request : Request) (c : ControlPlane) (m : GatewayServiceMgr)
      → IsOpen c.event_channel_sender
      → HasSent (before_answer request) c (process_cmd o request (c, m)).1.0
  unfolding process_cmd process_cmd_quit
  process_cmd-HasSent quit c m alive =
      ground (arith, send-IsOpen closing c.event_channel_sender alive)
  process_cmd-HasSent about c m alive = ground (arith, append-nil c.event_channel_sender.sent)
  process_cmd-HasSent connections c m alive = ground (arith, append-nil c.event_channel_sender.sent)
  process_cmd-HasSent ping c m alive = ground (arith, append-nil c.event_channel_sender.sent)
  process_cmd-HasSent proxies c m alive = ground (arith, append-nil c.event_channel_sender.sent)
  process_cmd-HasSent services c m alive = ground (arith, append-nil c.event_channel_sender.sent)
  process_cmd-HasSent (start s p) c m alive = ground (arith, append-nil c.event_channel_sender.sent)
  process_cmd-HasSent (stop s) c m alive = ground (arith, append-nil c.event_channel_sender.sent)
  process_cmd-HasSent no_request c m alive = ground (arith, append-nil c.event_channel_sender.sent)

write_response-HasSent :
    (t : Text) (c : ControlPlane)
    → IsOpen c.event_channel_sender
    → ((write_response t c).0 ≡ ok tt) × HasSent (line_of t) c (write_response t c).1
unfolding write_response
write_response-HasSent [] c alive = ground (arith, append-nil c.event_channel_sender.sent)
write_response-HasSent (x ∷ t) c alive =
    ground (arith, send-IsOpen (write (x ∷ t ++ newline ∷ [])) c.event_channel_sender alive)

module _ (o : Outside) (c : ControlPlane) (m : GatewayServiceMgr)
    (alive : IsOpen c.event_channel_sender) where
  -- What is performed gives a request and its answer, unless it panics.
  abbrev Performed : Result (Request × Result Text) × State → Type 0
  Performed done =
      (request : Request) × (response : Result Text) × (done.0 ≡ ok (request, response))
      × (response ≢ panic)
      × HasSent (before_answer request) c done.1.0

  perform-Performed :
      (r : Result Request) → ((perform o r (c, m)).0 ≡ panic) ⊎ Performed (perform o r (c, m))
  unfolding perform
  perform-Performed panic = inl refl
  perform-Performed (err e) =
      inr (no_request, err e, refl, λ q. cc, ground (arith, append-nil c.event_channel_sender.sent))
  perform-Performed (ok req) = elim (Result-cases (process_cmd o req (c, m)).0) [
    | inl (t, e) ↦
        inr (req, ok t, rw (e, perform) refl, λ q. cc, process_cmd-HasSent o req c m alive)
    | inr (inl (x, e)) ↦
        inr (req, err x, rw (e, perform) refl, λ q. cc, process_cmd-HasSent o req c m alive)
    | inr (inr e) ↦ inl (rw (e, perform) refl)
  ]

prepare_response_total :
    (o : Outside) (code : ℕ) (message : Option Text) (request : Request) (v : Option o.json.Value)
    → prepare_response o code message request v ≢ panic
unfolding prepare_response
prepare_response_total o code message req v = ground arith

error_response_total : (o : Outside) (e : AppError) (req : Request) → error_response o e req ≢ panic
unfolding error_response
error_response_total o e request = elim (Option-cases (get_code e)) [
  | inl q ↦
      rw (q, error_response)
        (prepare_response_total o code_internal_server_error (some (to_string e)) request none)
  | inr (code, q) ↦ elim (Bool-cases (code == code_bad_request)) [
    | inl b ↦
        rw (q, error_response)
          (rw (b, error_response) (prepare_response_total o code none request none))
    | inr b ↦
        rw (q, error_response)
          (rw (b, error_response) (prepare_response_total o code (some (to_string e)) request none))
  ]
]

-- An answer has a text, be it of an error, or of an error of writing an error.
response_text-ok :
    (o : Outside) (req : Request) (response : Result Text)
    → response ≢ panic
    → (t : Text) × (response_text o req response ≡ ok t)
response_text-ok o req (ok t) h = (t, refl)
response_text-ok o req panic h = absurd (h refl)
response_text-ok o req (err e) h = elim (Result-cases (error_response o e req)) [
  | inl (t, q) ↦ (t, rw q refl)
  | inr (inl (x, q)) ↦ (unserializable o x, rw q refl)
  | inr (inr q) ↦ absurd (error_response_total o e req q)
]

-- Every line of input is answered. While the connection takes events, a line either makes the
-- program panic where its request is performed, or is taken as a request, for which there is a text:
-- the connection has then sent just that text with a newline, or nothing where the text is empty,
-- after the event to close it if the request is to quit.
pub process_request_lem :
    (o : Outside) (command_line : Text) (c : ControlPlane) (m : GatewayServiceMgr)
    → IsOpen c.event_channel_sender
    → let done = process_request o command_line (c, m) in
      ((done.0 ≡ panic) × ((perform o (Request.parse o.parser command_line) (c, m)).0 ≡ panic))
      ⊎ ((request : Request) × (answer : Text) × (done.0 ≡ ok request)
          × HasSent (before_answer request ++ line_of answer) c done.1.0)
unfolding process_request
process_request_lem o line c m alive =
    elim (perform-Performed o c m alive (Request.parse o.parser line)) [
      | inl e ↦ inl (rw (e, process_request) refl, e)
      | inr (req, response, e, total, sent) ↦
          let (t, q) = response_text-ok o req response total in
          let w =
            write_response-HasSent t (perform o (Request.parse o.parser line) (c, m)).1.0 sent.1 in
          inr (
            req,
            t,
            rw (e, process_request) (rw (q, process_request) (rw (w.0, process_request) refl)),
            rw (e, process_request)
                (rw (q, process_request)
                  (ground (
                    arith,
                    w.1,
                    append_assoc c.event_channel_sender.sent (before_answer req) (line_of t),
                  ))),
          )
    ]
