-- ===== src/NetUnit.antt =====
-- The socket of a `NetUnit` (wheel/src/NetUnit.h): set once, and closed by the destructor.
pub mod Laws
use udp_kcp_plugin.Base.{Bool, none, some, is_set, if◌then◌else◌}
use udp_kcp_plugin.Base.Outcome.{Prog, pure, ◌>>◌}
use udp_kcp_plugin.System.{Handle, Log}
use udp_kcp_plugin.System.Calls.{close}

-- The constructor: INVALID_SOCKET.
unfoldable pub fresh_sock : Handle
fresh_sock = none

unfoldable pub is_valid : Handle → Bool
is_valid sock = is_set sock

-- `SetHandle` writes only over INVALID_SOCKET.
unfoldable pub set_handle : Handle → Handle → Handle
set_handle none new = new
set_handle (some old) new = some old

-- The destructor, with the member that it leaves.
unfoldable pub net_unit_destroy : Handle → Prog Log Handle
unfolding is_valid
net_unit_destroy sock = if is_valid sock then (do close sock; pure none) else pure sock
