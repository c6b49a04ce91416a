-- ===== src/Gateway/ControlPlane.antt =====
-- crates/gateway/src/client/controller.rs: `ControlPlaneServerVisitor`, which lets in the connections to
-- the control plane. Where a connection runs, in a thread of its own, is not modelled.
use trust.Prelude.{none}
use trust.Result.{Result, ◌>>=◌}
use trust.Alpn.{Protocol}
use trust.Repository.ServiceRepo.{ServiceRepo}
use trust.Gateway.Authorization.{Platform, TlsConnection, ClientConnVisitor, process_authorization}
use trust.Gateway.Visitor.Accept.{new_connection}

-- `create_client_conn`: the connection's visitor is `ClientConnVisitor::new`.
unfoldable pub create_control_conn :
    (p : Platform)
    → ClientConnVisitor
    → ServiceRepo
    → TlsConnection p.Certificate
    → Result Protocol × ClientConnVisitor
create_control_conn p conn_visitor service_repo tls_conn =
    let authorized = process_authorization p conn_visitor tls_conn none in
    (authorized.0 >>= new_connection service_repo, authorized.1)
