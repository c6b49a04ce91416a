-- ===== src/Client/Controller/Quit.antt =====
-- What an answer does that is not about a new service.
use trust.Prelude.{◌≡◌, ◌∙◌, ◌==◌, inl, none, false, Text, arith, text_eq, nat_eq}
use trust.HashMap.{get}
use trust.Control.Codes.{code_ok}
use trust.Control.Request.{quit}
use trust.Control.Response.{Response}
use trust.Client.Manager.Coherent.{IsCoherent}
use trust.Client.Manager.Shutdown.{shutdown-forgets_all}
use trust.Client.Controller.{Outside, Shared, act_on, act, process_response}
use trust.Client.Controller.Start.{process_response-mgr}

module _ (o : Outside) (line : Text) (s : Shared) (r : Response o.json.Value) where
  -- An answer with a code that is not 200 leaves the service manager as it was, whatever request it
  -- answers.
  pub process_response-refused :
      o.json.from_str line ≡ inl r
      → (r.code == code_ok) ≡ false
      → (process_response o line s).1.service_mgr ≡ s.service_mgr
  unfolding act
  process_response-refused e h = process_response-mgr o line s r e ∙ ground (arith, h)

  -- Once the gateway has said goodbye, the client knows no proxy key, where each key it knew was among
  -- the keys of its service's visitor.
  pub process_response-quit :
      (k : Text)
      → IsCoherent s.service_mgr
      → o.json.from_str line ≡ inl r
      → r.code ≡ code_ok
      → r.request ≡ quit
      → get k (process_response o line s).1.service_mgr.services_by_proxy_key ≡ none
  unfolding act act_on
  process_response-quit k inv e c q =
      rw (process_response-mgr o line s r e)
        (rw (c, act) (rw (q, act_on) (shutdown-forgets_all o.debug_error s.service_mgr k inv)))
