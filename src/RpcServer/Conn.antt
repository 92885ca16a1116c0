-- ===== src/RpcServer/Conn.antt =====
-- `rpcConn` of middleware/src/rpcserver/rpcserver.go: the byte stream between `net/rpc` and the
-- websocket.
use bitbox_base.Base.{ℕ, ◌++◌, take}
use bitbox_base.Base.Text.{Text}
use bitbox_base.Rpcmessages.{rpc_call, op_text}

-- `copy(p, message)` into a buffer of `size` bytes.
unfoldable pub conn_read : ℕ → Text → Text
conn_read size message = take size message

unfoldable pub conn_write : Text → Text
conn_write p = op_text rpc_call ++ p
