-- ===== src/Gate/Handled.antt =====
-- dispatch_socket_message of service_gate.c, on a gate that is whole.
use myprogram.Prelude.{refl, [], ok}
use myprogram.Gate.{Gate}
use myprogram.Gate.Socket.{
  SocketMessage, data_message, connect_message, close_message, error_message, accept_message,
  warning_message, other_message, dispatch_socket_message,
}
use myprogram.Gate.Whole.{IsWhole}
use myprogram.Gate.Serve.{Admits, Serves, unchanged, on_data-Serves, on_connect-Serves}
use myprogram.Gate.Turnover.{on_close-Serves, on_accept-Serves}

-- Any socket message that brings what it may to a gate that is whole: dispatch_socket_message ends
-- without a fault, and the gate is whole again.
pub dispatch_socket_message-IsWhole :
    (g : Gate) (m : SocketMessage) → IsWhole g → Admits g m → Serves (dispatch_socket_message g m)
unfolding dispatch_socket_message
dispatch_socket_message-IsWhole g (data_message id bytes) (chain, xs, fs, v) a =
    on_data-Serves v id bytes a
dispatch_socket_message-IsWhole g (connect_message id) (chain, xs, fs, v) a = on_connect-Serves v id
dispatch_socket_message-IsWhole g (close_message id) (chain, xs, fs, v) a = on_close-Serves v id
dispatch_socket_message-IsWhole g (error_message id) (chain, xs, fs, v) a = on_close-Serves v id
dispatch_socket_message-IsWhole g (accept_message id ud name) (chain, xs, fs, v) a =
    on_accept-Serves v id ud name a
dispatch_socket_message-IsWhole g (warning_message id ud) (chain, xs, fs, v) a =
    unchanged v [] (ok (g, [])) refl
dispatch_socket_message-IsWhole g other_message (chain, xs, fs, v) a =
    unchanged v [] (ok (g, [])) refl
