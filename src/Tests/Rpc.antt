-- ===== src/Tests/Rpc.antt =====
-- Requests to the RPC server.
use bitbox_base.Base.{◌≡◌, refl, [], true}
use bitbox_base.Base.Text.{Text, text}
use bitbox_base.RpcServer.Dispatch.{Request, serve}
use bitbox_base.RpcServer.Implementation.{middleware_api}
use bitbox_base.RpcServer.Tokens.{serve-denied_harmless}
use bitbox_base.RpcServer.Reachable.{here, next, serves, starts, rpc_loops, Reach-IsSafe}
use bitbox_base.Middleware.Commands.{IsSafe}
use bitbox_base.Middleware.Loops.{rpc_round, start}
use bitbox_base.Middleware.Start.{new_middleware}
use bitbox_base.Middleware.State.{State}
use bitbox_base.Tests.Demo.{demo, idle, exit_error, demo_validate}

abbrev reboot_with : Text → Request
reboot_with token = Request.reboot_base (record { token = token })

serve-denied_harmless_example :
    let t = (serve (middleware_api demo) 0 (reboot_with (text "x")) idle).1 in
    (t.calls ≡ [])
    × (t.events ≡ [])
    × (t.scheduled ≡ [])
    × (t.is_middleware_password_set ≡ idle.is_middleware_password_set)
    × (t.is_base_setup_done ≡ idle.is_base_setup_done)
    × (t.base_update_progress ≡ idle.base_update_progress)
unfolding demo_validate text
serve-denied_harmless_example =
    serve-denied_harmless demo (reboot_with (text "x")) idle {token = text "x"} {err = exit_error}
      refl refl

abbrev started : State demo
started = (start demo (new_middleware demo idle.config true idle.world).1).1

Reach-IsSafe_example :
    IsSafe demo idle.config
      (rpc_round demo (serve (middleware_api demo) 0 (reboot_with (text "t")) started).1).1
Reach-IsSafe_example =
    Reach-IsSafe demo idle.config true idle.world
      (rpc_round demo (serve (middleware_api demo) 0 (reboot_with (text "t")) started).1).1
      (next (next (next here starts) (serves (reboot_with (text "t")))) rpc_loops)
