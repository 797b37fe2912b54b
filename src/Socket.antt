-- ===== src/Socket.antt =====
-- How the code opens its UDP sockets: `NewSocket` and `setnonblocking` of wheel/src/wucomm.h with
-- SO_REUSEADDR, as UDPServer.cpp and UDPClient.cpp call them, and the address they bind.
use udp_kcp_plugin.Base.{ℕ, Bool, true}
use udp_kcp_plugin.Base.Outcome.{Prog, pure, ◌>>=◌, ◌>>◌}
use udp_kcp_plugin.System.{Handle, Addr, Log, Env, made_reusable, made_nonblocking}
use udp_kcp_plugin.System.Calls.{note, open_socket}
use udp_kcp_plugin.Address.{htons}

-- `NewSocket(AF_INET, SOCK_DGRAM, IPPROTO_UDP)`, the only way in which it is called.
abbrev pub new_socket : Env → Prog Log Handle
new_socket e = open_socket e

-- `setnonblocking`; what `ioctl` answers is dropped.
abbrev pub set_nonblocking : Handle → Prog Log Bool
set_nonblocking fd = note (made_nonblocking fd) >> pure true

-- SO_REUSEADDR, and no blocking.
unfoldable pub prepare : Handle → Prog Log (Unit {0})
prepare fd = do note (made_reusable fd); _ ← set_nonblocking fd; pure tt

-- A UDP socket that is prepared before it is looked at, also where it is invalid.
unfoldable pub open_udp : Env → Prog Log Handle
unfolding prepare
open_udp e = do fd ← new_socket e; prepare fd; pure fd

-- INADDR_ANY and a port, in network order.
unfoldable pub any_addr : ℕ → Addr
unfolding htons
any_addr port = record { ip = 0; port = htons port }
