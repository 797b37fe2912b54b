-- ===== src/Tests/Directories.antt =====
-- The directory of sessions, on concrete systems.
use udp_kcp_plugin.Base.{ℕ, ◌≡◌, true, refl, some, none, [], ◌∷◌, arith}
use udp_kcp_plugin.Base.Assoc.{lookup, insert}
use udp_kcp_plugin.Base.Outcome.{ok}
use udp_kcp_plugin.Base.Tame.{Safe}
use udp_kcp_plugin.System.{Env, waited, sent, kcp_updated, Log}
use udp_kcp_plugin.Address.{make_unique_id, htons}
use udp_kcp_plugin.Clock.{TimeOfDay, iclock}
use udp_kcp_plugin.Client.{
  Client, accepted, update, connecting, new_client, set_some_info_by_addr, fresh_client,
  set_client_type, client_recv, check_kcp_plug, get_kcp_conv_id, start_conv, offer_conv,
  set_kcp_conv_id, ensure_block, real_send,
}
use udp_kcp_plugin.Plug.{
  kcp_update, output_all, use_kcp_plug, get_kcp_conv_id as conv_id_of, copy_id,
  new_kcp_plug_control_block, configure_block,
}
use udp_kcp_plugin.Dispatch.{dispatch_update, attach_handle_to_dispatch, ctl_event}
use udp_kcp_plugin.Directory.{Steps}
use udp_kcp_plugin.Server.{
  World, load, lift, attach_net_client, ctl_udp_event, get_handle, store, alloc, emplace,
  set_server, at_client,
}
use udp_kcp_plugin.Server.Run.{server_update, update_client, poll_linux, handle_all_linux}
use udp_kcp_plugin.Server.Peers.{
  on_recv_by_addr, new_net_client, connect_new_client, adopt, recv_at, recv_at_new,
}
use udp_kcp_plugin.Base.Hoare.{Returns}
use udp_kcp_plugin.NetUnit.{set_handle}
use udp_kcp_plugin.Socket.{open_udp, prepare, any_addr}
use udp_kcp_plugin.Buffer.{u32_bytes, le_word}
use udp_kcp_plugin.Client.Handshake.{made_block}
use udp_kcp_plugin.Server.Welcome.{taken_on}
use udp_kcp_plugin.Server.Converse.{on_recv_by_addr-agree}
use udp_kcp_plugin.Tests.Servers.{sample-Works}
use udp_kcp_plugin.Server.View.{view}
use udp_kcp_plugin.Server.Sound.{IsSound}
use udp_kcp_plugin.Server.Rounds.{Rounds, round, done}
use udp_kcp_plugin.Server.Refines.{Hears, server_update-Steps, on_recv_by_addr-Hears}
use udp_kcp_plugin.Tests.{
  knocking, knocking-Reports, os_with, env_with, sample, hello, peer, idle, busy, busy-IsSound,
  fresh_of,
}

server_update-Steps_example :
    Safe (λ (r : Unit {0} × World). Steps (view busy) (view r.1)) (server_update knocking 10 busy)
server_update-Steps_example =
    server_update-Steps knocking busy 10 busy-IsSound tt (knocking-Reports busy 10)

on_recv_by_addr-Hears_example :
    Safe (λ r. Hears (make_unique_id peer) busy r.1) (on_recv_by_addr knocking hello peer busy)
on_recv_by_addr-Hears_example = on_recv_by_addr-Hears knocking busy hello peer busy-IsSound

-- A server with a client in conversation 77, whose block is due, on a system where nothing arrives.
abbrev calling : Client
calling = record (fresh_of (some accepted)) { conv_id = 77; block = some 77 }

abbrev serving : World
serving = record busy { heap = (1, calling) ∷ [] }

serving-IsSound : IsSound serving
unfolding lookup
serving-IsSound = record {
  fresh = (omega arith, tt);
  entries = ((calling, refl, refl), tt);
  distinct = (refl, tt);
}

abbrev silent : Env
silent = env_with (record (os_with hello true true) { wait = λ l d n. none }) true

abbrev noon : TimeOfDay
noon = record { sec = 43200; usec = 0 }

abbrev later : World
later = record serving {
  log = waited (some 3) 1024 ∷ sent (some 7) hello ∷ kcp_updated 77 (iclock noon) ∷ [];
}

one_round : Rounds silent serving (noon ∷ []) later
unfolding server_update update_client poll_linux dispatch_update handle_all_linux lift load lookup
    update kcp_update output_all
one_round = round noon refl ((λ on v rs got h. absurd (cc)), λ off. absurd (cc)) refl done

-- The calls that the server made, the client that it got and what it is after the first datagram of a
-- peer.
abbrev calls_before : Log
calls_before =
    made_block (make_unique_id peer) (make_unique_id peer)
      (taken_on (some 3) (some 7) 1 peer 8080 [])

abbrev named : Client
named = record (fresh_of (some accepted)) {
  addr = peer;
  big_id = make_unique_id peer;
  conv_id = make_unique_id peer;
  block = some (make_unique_id peer);
}

abbrev welcomed : World
welcomed = record idle {
  log = sent (some 7) (u32_bytes (make_unique_id peer)) ∷ calls_before;
  heap = (1, named) ∷ [];
  next = 2;
  server = record (idle.server) { clients = (make_unique_id peer, 1) ∷ [] };
}

welcomed-run : on_recv_by_addr sample hello peer idle ≡ ok (some 1, welcomed)
unfolding on_recv_by_addr lookup insert make_unique_id new_net_client open_udp prepare any_addr
    htons connect_new_client adopt new_client set_some_info_by_addr fresh_client set_handle
    attach_net_client attach_handle_to_dispatch ctl_udp_event ctl_event get_handle load lift store
    alloc emplace set_server set_client_type recv_at_new recv_at at_client client_recv
    check_kcp_plug get_kcp_conv_id use_kcp_plug start_conv offer_conv conv_id_of copy_id u32_bytes
    le_word set_kcp_conv_id ensure_block new_kcp_plug_control_block configure_block real_send
welcomed-run = refl

-- The machine of the peer, to which the server's offer has come.
abbrev far : Env
far = env_with (os_with (u32_bytes (make_unique_id peer)) true true) true

on_recv_by_addr-agree_example :
    (a : Client) × (p : ℕ) × (lookup (make_unique_id peer) welcomed.server.clients ≡ some p)
    × (lookup p welcomed.heap ≡ some a)
    × (a.conv_id ≡ make_unique_id peer)
    × Returns
        (λ r. (r.0.conv_id ≡ a.conv_id) × (r.0.block ≡ some (make_unique_id peer)))
        (client_recv far (fresh_of (some connecting)) none [])
unfolding lookup u32_bytes
on_recv_by_addr-agree_example =
    on_recv_by_addr-agree sample far 7 (make_unique_id peer) (make_unique_id peer) peer idle
      welcomed (some 1) hello (u32_bytes (make_unique_id peer)) calls_before []
      (fresh_of (some connecting)) none sample-Works refl refl welcomed-run refl refl refl
      (record { no_conv = refl; no_block = refl }) (record { full_size = refl; at_start = refl })
      refl refl refl
