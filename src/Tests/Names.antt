-- ===== src/Tests/Names.antt =====
-- Runs of crates/common/src: protocol names, proxy keys, and what goes through JSON.
use trust.Prelude.{
  ℕ, none, text_eq, ◌++◌, ◌≡◌, refl, Option, some, List, [], ◌∷◌, Text, codes, arith, if◌then◌else◌,
  ◌==◌,
}
use trust.Text.{is_digit, u64_bound, colon}
use trust.Text.Split.{count}
use trust.Result.{ok, panic}
use trust.Model
use trust.Alpn.{service, create_service_protocol, display, parse}
use trust.Alpn.RoundTrip.{parse-display, parse_panics}
use trust.HashMap.{get, insert}
use trust.Channel.{send}
use trust.Proxy.Executor.{
  ProxyExecutorEvent, open_tcp_and_tcp_proxy, open_tcp_and_udp_proxy, close, Opened, connected,
  not_created, not_connected, ProxyExecutor, new, poll_new_tasks,
}
use trust.Proxy.Executor.Tasks.{after_all, reports, poll_new_tasks_lem}
use trust.Proxy.Event.{closed, tcp_and_tcp}
use trust.Proxy.Event.Unique.{key_value-injective}
use trust.Control.Response.{of_model, to_model}
use trust.Control.Response.Address.{to_model-of_model}
use trust.Tests.Samples.{chat}

parse-display_example : parse is_digit (display (service 200)) ≡ ok (some (service 200))
parse-display_example = parse-display is_digit (λ c h. h) (service 200) (omega arith)

parse_panics_example : parse is_digit (create_service_protocol u64_bound) ≡ panic
parse_panics_example = parse_panics is_digit (λ c h. h) u64_bound (omega arith)

abbrev client : Option Text
client = some (codes "1.1.1.1:1")

abbrev server : Option Text
server = some (codes "2.2.2.2:2")

key_value-injective_example : (tcp_and_tcp ≡ tcp_and_tcp) × (client ≡ client) × (server ≡ server)
key_value-injective_example =
    key_value-injective tcp_and_tcp tcp_and_tcp client server client server (ground arith)
      (ground arith) (ground arith) (ground arith) refl

abbrev sixth : Model.Service
sixth = record chat { host = codes "::1" }

to_model-of_model_example :
    to_model (of_model sixth)
    ≡ (if count colon sixth.host == 0 then sixth else record sixth { host = []; port = 0 })
to_model-of_model_example = to_model-of_model sixth (λ q. cc) (omega arith)

abbrev chat_key : Text
chat_key = codes "chat"

-- The chat's key is opened three times: the second time with success, then not. A proxy is known by the
-- number of its task.
abbrev orders : List (ProxyExecutorEvent × Opened ℕ)
orders =
    (open_tcp_and_tcp_proxy chat_key, connected 1)
    ∷ (open_tcp_and_udp_proxy (codes "echo"), not_created)
    ∷ (open_tcp_and_tcp_proxy chat_key, connected 2)
    ∷ (open_tcp_and_tcp_proxy chat_key, not_connected)
    ∷ (close chat_key, not_created)
    ∷ []

abbrev idle : ProxyExecutor ℕ
idle = new (record { sent = []; drops_at = none })

echo_is_reported : (poll_new_tasks orders idle).1 ≡ (record {
  proxy_streams = (chat_key, 2) ∷ [];
  proxy_events = record { sent = closed (codes "echo") ∷ []; drops_at = none };
  disconnecting = 2 ∷ [];
})
unfolding poll_new_tasks send get insert
echo_is_reported = refl

poll_new_tasks_lem_example :
    let done = (poll_new_tasks orders idle).1 in
    (get chat_key done.proxy_streams ≡ after_all chat_key orders (get chat_key idle.proxy_streams))
    × (done.proxy_events.sent ≡ idle.proxy_events.sent ++ reports orders)
poll_new_tasks_lem_example = poll_new_tasks_lem chat_key orders idle refl
