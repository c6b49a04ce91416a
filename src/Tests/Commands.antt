-- ===== src/Tests/Commands.antt =====
-- Runs of crates/gateway/src/client/controller.rs.
use trust.Prelude.{◌≡◌, ◌⊎◌, refl, [], ◌∷◌, ◌++◌, Text, codes, nat_eq, text_eq}
use trust.HashMap.{get}
use trust.Channel.{send}
use trust.Result.{ok, err, panic}
use trust.Control.Request.{Request, parse, trim}
use trust.Control.Request.Trim.{parse-trim}
use trust.Repository.AccessRepo
use trust.Gateway.Manager.{GatewayServiceMgr, new}
use trust.Gateway.Controller.{write}
use trust.Gateway.Controller.Commands.{process_cmd_start, unauthorized}
use trust.Gateway.Controller.Process.{process_request, perform}
use trust.Gateway.Controller.Commands.{process_cmd_services}
use trust.Gateway.Controller.Masking.{hide_all, process_cmd_services-hide_all}
use trust.Gateway.Controller.Start.{Outcome, process_cmd_start_lem}
use trust.Gateway.Controller.Answer.{HasSent, before_answer, line_of, process_request_lem}
use trust.Tests.Samples.{config, tasks, control, outside, parser}

abbrev manager : GatewayServiceMgr
manager = new config tasks

echo_is_forbidden :
    process_cmd_start outside control (codes "echo") 5000 manager
    ≡ (err (unauthorized 7 201), manager)
unfolding process_cmd_start get AccessRepo.get
echo_is_forbidden = refl

process_cmd_start_lem_example :
    Outcome control
      (codes "echo")
      manager
      (process_cmd_start outside control (codes "echo") 5000 manager)
process_cmd_start_lem_example = process_cmd_start_lem outside control (codes "echo") 5000 manager

ping_is_answered :
    (process_request outside (codes " ping ") (control, manager)).1.0.event_channel_sender.sent
    ≡ (write (codes "{}\n") ∷ [])
unfolding process_request send
ping_is_answered = refl

process_request_lem_example :
    let done = process_request outside (codes " ping ") (control, manager) in
    ((done.0 ≡ panic)
      × ((perform outside (parse outside.parser (codes " ping ")) (control, manager)).0 ≡ panic))
    ⊎ ((request : Request) × (answer : Text) × (done.0 ≡ ok request)
        × HasSent (before_answer request ++ line_of answer) control done.1.0)
process_request_lem_example = process_request_lem outside (codes " ping ") control manager refl

parse-trim_example : parse parser (codes "ping") ≡ parse parser (codes " ping \t")
unfolding trim
parse-trim_example = parse-trim parser (codes " ping \t")

process_cmd_services-hide_all_example :
    process_cmd_services outside control
    ≡ process_cmd_services outside
        (record control { services_by_id = hide_all control.services_by_id })
process_cmd_services-hide_all_example = process_cmd_services-hide_all outside control refl
