-- ===== src/Websocket/Listen.antt =====
-- `start_ws_server` of src/transports/websocket.rs.
use dirpc.Prelude.{ℕ, Bool, Option, List}
use dirpc.Listen.{Accept, serve, try_each}

-- The port and the tasks started, or `none` where the function returns the error `AddrInUse`.
unfoldable pub start_ws_server : (ℕ → Bool) → List Accept → Option (ℕ × ℕ)
start_ws_server bind_ok accepts = serve accepts (try_each bind_ok 10 6463)
