-- ===== src/Tests/Servers.antt =====
-- The server on a concrete system, with and without a client.
use udp_kcp_plugin.Base.{◌≡◌, refl, none, some, [], ◌∷◌, ◌||◌, true, false}
use udp_kcp_plugin.Base.Outcome.{ok}
use udp_kcp_plugin.Base.Hoare.{Returns}
use udp_kcp_plugin.Base.Tame.{Safe}
use udp_kcp_plugin.Base.Assoc.{lookup}
use udp_kcp_plugin.System.{Env, client, closed, attached, connected, Addr}
use udp_kcp_plugin.Client.{accepted, Client, get_kcp_conv_id}
use udp_kcp_plugin.Server.{World}
use udp_kcp_plugin.Server.Peers.{on_recv_by_addr, new_net_client}
use udp_kcp_plugin.Server.Life.{server_destroy, server_destroy_windows}
use udp_kcp_plugin.Server.Run.{try_listen}
use udp_kcp_plugin.Server.Isolation.{on_recv_by_addr-Apart}
use udp_kcp_plugin.Server.Apart.{Apart}
use udp_kcp_plugin.Server.Welcome.{Welcomed, on_recv_by_addr-welcomes, Works}
use udp_kcp_plugin.Plug.{use_kcp_plug}
use udp_kcp_plugin.Server.Session.{Talks, Delivered, deliver_all, deliver_all-Delivered}
use udp_kcp_plugin.Server.Converse.{Conversing, deliver_all-converses}
use udp_kcp_plugin.Tests.Plugs.{sample-Quiet, sample-KcpRecvFits}
use udp_kcp_plugin.Address.{make_unique_id}
use udp_kcp_plugin.Server.Listen.{try_listen-once}
use udp_kcp_plugin.Server.Admit.{Admits}
use udp_kcp_plugin.Server.Deliver.{on_recv_by_addr-Safe}
use udp_kcp_plugin.Server.Free.{Destroyed, server_destroy-Returns}
use udp_kcp_plugin.Server.Sockets.{bound_socket, new_net_client-leaks, new_net_client-double_close}
use udp_kcp_plugin.Tests.{
  os_with, env_with, sample, fresh_of, hello, peer, idle, busy, busy-IsSound,
}

on_recv_by_addr-Safe_example : Safe (Admits busy) (on_recv_by_addr sample hello peer busy)
on_recv_by_addr-Safe_example = on_recv_by_addr-Safe sample busy hello peer busy-IsSound

server_destroy-Returns_example :
    Returns (Destroyed busy) (server_destroy sample busy)
    × Returns (Destroyed busy) (server_destroy_windows sample busy)
server_destroy-Returns_example = server_destroy-Returns sample busy busy-IsSound

-- Systems on which `bind` fails, and on which the dispatcher refuses.
abbrev unbound : Env
unbound = env_with (os_with hello false true) true

abbrev refusing : Env
refusing = env_with (os_with hello true false) true

new_net_client-leaks_example :
    new_net_client unbound peer idle
    ≡ ok (none, record idle { log = bound_socket (some 7) 8080 false [] })
new_net_client-leaks_example = new_net_client-leaks unbound idle peer 7 refl (λ l. refl)

new_net_client-double_close_example :
    Returns
      (λ r.
        (r.0 ≡ none)
        × (r.1.log
            ≡ closed (some 7)
              ∷ closed (some 7)
              ∷ attached (some 3) (some 7) (client 1) false
              ∷ connected (some 7) peer true
              ∷ bound_socket (some 7) 8080 true []))
      (new_net_client refusing peer idle)
unfolding lookup
new_net_client-double_close_example =
    new_net_client-double_close refusing idle peer 7 refl (λ l. refl) (λ l. refl) refl (λ l u. refl)

-- A server that was constructed and does not listen.
abbrev not_started : World
not_started = record idle { server = record (idle.server) { sock = none; running = false } }

-- The dispatcher takes no socket, and `TryListen` does not ask it.
try_listen-once_example :
    Returns
      (λ r.
        (r.1.server.sock ≡ some 7)
        × (r.1.server.running ≡ (r.0 || false))
        × (try_listen refusing r.1 ≡ ok (false, r.1)))
      (try_listen refusing not_started)
try_listen-once_example = try_listen-once refusing not_started 7 refl refl refl (λ l. refl)

-- The peer's identity is not 77, so the client that is there is another's.
on_recv_by_addr-Apart_example :
    Safe (λ r. Apart (make_unique_id peer) 1 busy r.1) (on_recv_by_addr sample hello peer busy)
unfolding lookup make_unique_id
on_recv_by_addr-Apart_example =
    on_recv_by_addr-Apart sample busy hello peer 1 (fresh_of (some accepted)) busy-IsSound refl
      (λ h. absurd (cc))

pub sample-Works : Works sample 7 (make_unique_id peer) peer 8080
sample-Works = record {
  linux = refl;
  kcp_on = refl;
  binds = λ l. refl;
  connects = λ l. refl;
  attaches = λ l d u. refl;
  arms = λ l d u. refl;
  creates = λ l. refl;
}

-- A server whose client 77 has its conversation, and a peer of that identity.
abbrev pub settled : Client
settled = record (fresh_of (some accepted)) { conv_id = 77; block = some 77 }

abbrev pub serving : World
serving = record busy {
  heap = (1, settled) ∷ [];
  server = record (busy.server) { clients = (77, 1) ∷ [] };
}

abbrev pub caller : Addr
caller = record { ip = 77; port = 0 }

pub serving-Talks : Talks sample serving caller 1 settled
unfolding lookup make_unique_id get_kcp_conv_id use_kcp_plug
serving-Talks = record {
  entry = refl;
  object = refl;
  past = λ h. absurd (cc);
  room = record { full_size = refl; at_start = refl };
}

on_recv_by_addr-welcomes_example :
    Returns
      (Welcomed sample 7 (make_unique_id peer) peer idle)
      (on_recv_by_addr sample hello peer idle)
unfolding lookup
on_recv_by_addr-welcomes_example =
    on_recv_by_addr-welcomes sample 7 (make_unique_id peer) peer idle hello sample-Works refl refl

deliver_all-Delivered_example :
    Delivered sample 1 settled serving (deliver_all sample caller (hello ∷ [] ∷ hello ∷ []) serving)
deliver_all-Delivered_example =
    deliver_all-Delivered sample sample-Quiet sample-KcpRecvFits serving caller 1 settled
      (hello ∷ [] ∷ hello ∷ []) refl serving-Talks

deliver_all-converses_example :
    Conversing sample 7
      (make_unique_id peer)
      peer
      idle
      (deliver_all sample peer (hello ∷ hello ∷ []) idle)
unfolding lookup make_unique_id
deliver_all-converses_example =
    deliver_all-converses sample sample-Quiet sample-KcpRecvFits 7 (make_unique_id peer) peer idle
      hello (hello ∷ []) sample-Works refl refl (λ h. absurd (cc))
