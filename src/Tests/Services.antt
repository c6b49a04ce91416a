-- ===== src/Tests/Services.antt =====
-- Runs of crates/gateway/src/service/manager.rs.
use trust.Prelude.{
  ℕ, ◌+◌, ◌≤◌, ◌≡◌, ◌≢◌, ◌↔◌, refl, Option, some, [], ◌∷◌, Text, codes, arith, nat_eq,
}
use trust.HashMap.{get}
use trust.AppError.{AppError}
use trust.Result.{ok, err, panic}
use trust.Gateway.Manager.{GatewayServiceMgr, new, startup, start_new, ports_exhausted}
use trust.Gateway.Manager.Startup.{
  IsPlanned, startup_again, startup-IsPlanned, start_all, start_all-new, new-IsPlanned,
}
use trust.Tests.Samples.{config, tasks, chat, echo}

abbrev fresh : GatewayServiceMgr
fresh = new config tasks

chat_starts : (startup chat fresh).0 ≡ ok (some (codes "localhost"), 8500)
unfolding startup new start_new
chat_starts = refl

startup_again_example :
    startup chat (startup chat fresh).1
    ≡ (ok (some (codes "localhost"), 8500), (startup chat fresh).1)
startup_again_example =
    startup_again chat chat fresh (some (codes "localhost"), 8500) chat_starts refl

startup-IsPlanned_example :
    let started = startup chat fresh in
    (started.0 ≢ panic)
    × IsPlanned 8500 8501 started.1
    × ((host : Option Text) (port : ℕ)
        → started.0 ≡ ok (host, port)
        → (8500 ≤ port) × (port ≤ 8501) × (get 200 started.1.service_ports ≡ some port))
    × ((e : AppError)
        → started.0 ≡ err e
        → (e ≡ ports_exhausted) × (started.1 ≡ fresh) × (fresh.next_service_port ≡ 8501 + 1))
startup-IsPlanned_example =
    startup-IsPlanned 8500 8501 chat fresh (new-IsPlanned config tasks 8500 8501 refl (omega arith))
      (omega arith)

chat_has : get 200 (start_all (chat ∷ echo ∷ []) fresh).service_ports ≡ some 8500
unfolding start_all startup new start_new
chat_has = refl

echo_has : get 201 (start_all (chat ∷ echo ∷ []) fresh).service_ports ≡ some 8501
unfolding start_all startup new start_new
echo_has = refl

start_all-new_example :
    (8500 ≤ 8501) × (8501 ≤ 8501) × (◌≡◌ {A = ℕ} 8501 8500 ↔ (echo.service_id ≡ chat.service_id))
start_all-new_example =
    start_all-new config tasks 8500 8501 (chat ∷ echo ∷ []) 201 200 8501 8500 refl (omega arith)
      (omega arith) echo_has chat_has
