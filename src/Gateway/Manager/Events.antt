-- ===== src/Gateway/Manager/Events.antt =====
-- crates/gateway/src/service/manager.rs: the loop that takes note of what proxies report.
use trust.Prelude.{List, [], ◌∷◌, codes}
use trust.AppError.{gen_with_msg_and_err}
use trust.Proxy.Executor.{recv_error}
use trust.Result.{Result, ok, err, panic}
use trust.Proxy.Event.{ProxyEvent, closed, message}
use trust.Gateway.Manager.{GatewayServiceMgr, on_closed_proxy}

-- `poll_proxy_events`, over the events that come before all senders are gone. A message is
-- `unimplemented!`.
unfoldable pub poll_gateway_events :
    List ProxyEvent → GatewayServiceMgr → Result (Unit {0}) × GatewayServiceMgr
unfolding on_closed_proxy
poll_gateway_events [] m =
    (err (gen_with_msg_and_err (codes "Error receiving proxy event") recv_error), m)
poll_gateway_events (message proxy_key addr bytes ∷ events) m = (panic, m)
poll_gateway_events (closed proxy_key ∷ events) m =
    let done = on_closed_proxy proxy_key m in
    let rest = poll_gateway_events events done.1 in
    elim done.0 [ ok t ↦ rest | err e ↦ rest | panic ↦ done ]
