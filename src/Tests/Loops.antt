-- ===== src/Tests/Loops.antt =====
-- Whole rounds of the loop, on Linux and on Windows.
use udp_kcp_plugin.Base.{
  ℕ, zero, suc, ◌≡◌, refl, some-injective, subst, none, some, List, [], ◌∷◌, arith, true, false,
  length,
}
use udp_kcp_plugin.Base.Outcome.{ok, fault}
use udp_kcp_plugin.Base.Hoare.{Returns}
use udp_kcp_plugin.Base.Tame.{Safe}
use udp_kcp_plugin.Base.Assoc.{lookup, Below, insert}
use udp_kcp_plugin.System.{Completion, waited, Env, Ready, server, client}
use udp_kcp_plugin.Server.{World}
use udp_kcp_plugin.Server.Run.{update_client, poll_windows, poll_linux, server_update}
use udp_kcp_plugin.Clock.{TimeOfDay}
use udp_kcp_plugin.Server.Inputs.{recv_each, poll_linux-recv_each}
use udp_kcp_plugin.Dispatch.{dispatch_update, attach_handle_to_dispatch, ctl_event, translate}
use udp_kcp_plugin.Server.Completions.{poll_windows-empty}
use udp_kcp_plugin.Dispatch.Windows.{new_info}
use udp_kcp_plugin.Server.Sound.{IsSound, Evolves}
use udp_kcp_plugin.Server.Loop.{AllReady, server_update-Safe}
use udp_kcp_plugin.Tests.{
  knocking, os_with, env_with, sample, hello, peer, idle, busy, busy-IsSound, ready_now,
}
use udp_kcp_plugin.Server.Turns.{Turns}
use udp_kcp_plugin.Server.Windows.{Completes, server_update-Safe_windows}
use udp_kcp_plugin.Server.Pending.{AllRead, finished}
use udp_kcp_plugin.Server.Program.{main}
use udp_kcp_plugin.Client.{client_recv, set_client_type, new_client}
use udp_kcp_plugin.Plug.{get_kcp_conv_id, new_kcp_plug_control_block}
use udp_kcp_plugin.Buffer.{u32_bytes, le_word}
use udp_kcp_plugin.Address.{make_unique_id}

ready_now-AllReady : (w : World) (n : ℕ) (rs : List Ready) → ready_now n ≡ some rs → AllReady w rs
ready_now-AllReady w zero rs h = absurd (cc)
ready_now-AllReady w (suc n) rs h = subst (AllReady w) (some-injective _ rs h) (tt, tt)

server_update-Safe_example : Safe (λ r. Evolves busy r.1) (server_update sample 10 busy)
server_update-Safe_example =
    server_update-Safe sample busy 10 refl busy-IsSound
      (λ v rs got h. ready_now-AllReady v 1024 rs h)

abbrev noon : TimeOfDay
noon = record { sec = 43200; usec = 0 }

-- A system on which a read has finished with an empty datagram, and a server with one posted read.
abbrev emptied : Completion
emptied = record { info = 0; bytes = []; from = peer }

abbrev completing : Env
completing =
    env_with (record (os_with hello true true) { completions = λ l d n. some (emptied ∷ []) }) true

abbrev posted : World
posted = record idle {
  posts = new_info (record { infos = []; next = 0 }) 1 server;
  server = record (idle.server) { events = record { evt = 0; info = 0 } ∷ [] };
}

poll_windows-empty_example :
    poll_windows completing posted
    ≡ ok (
      tt,
      record posted {
        log = waited (some 3) 1024 ∷ [];
        server = record (posted.server) { events = record { evt = 4; info = 0 } ∷ [] };
      },
    )
poll_windows-empty_example =
    poll_windows-empty completing posted (emptied ∷ []) refl (refl, tt) (omega arith)

-- A system on Windows on which the read that the server has posted finishes with a datagram.
abbrev greeting : Completion
greeting = record { info = 0; bytes = hello; from = peer }

abbrev windows : Env
windows = record {
  os = record (os_with hello true true) { completions = λ l d n. some (greeting ∷ []) };
  kcp = sample.kcp;
  build = record { is_linux = false; with_kcp = true; fuel = 4 };
}

posted-IsSound : IsSound posted
posted-IsSound = record { fresh = tt; entries = tt; distinct = tt }

posted-Below : Below posted.posts.next posted.posts.infos
unfolding new_info
posted-Below = (omega arith, tt)

posted-Completes : Completes windows posted 10
unfolding new_info lookup update_client
posted-Completes v cs got h =
    subst (λ cs'. AllRead v v.posts (finished cs')) (some-injective _ cs h)
      (subst (Returns (λ (r : Unit {0} × World). AllRead r.1 r.1.posts (0 ∷ []))) got
        ((_, refl, refl, tt), tt, tt))

-- A client comes, is taken on, and both reads are posted again.
server_update-Safe_windows_example :
    Safe (λ (r : Unit {0} × World). Turns posted r.1) (server_update windows 10 posted)
server_update-Safe_windows_example =
    server_update-Safe_windows windows posted 10 refl posted-IsSound posted-Below posted-Completes

-- Input with a hang-up, and then input alone.
abbrev mixed : List Ready
mixed =
    record { has_err = false; has_hup = true; has_in = true; has_out = false; userdata = client 1 }
    ∷ record { has_err = false; has_hup = false; has_in = true; has_out = false; userdata = server }
    ∷ []

abbrev mixing : Env
mixing = env_with (record (os_with hello true true) { wait = λ l d n. some mixed }) true

poll_linux-recv_each_example :
    poll_linux mixing idle
    ≡ recv_each mixing (server ∷ []) (record idle { log = waited (some 3) 1024 ∷ [] })
poll_linux-recv_each_example = poll_linux-recv_each mixing idle

-- After one round there is one client.
main_run :
    elim (main knocking none none (noon ∷ []) []) [
      | ok r ↦ length r.1.server.clients
      | fault f ↦ 99
    ]
    ≡ 1
unfolding main attach_handle_to_dispatch ctl_event server_update dispatch_update translate lookup
    insert client_recv set_client_type new_client get_kcp_conv_id u32_bytes
    new_kcp_plug_control_block le_word make_unique_id
main_run = refl
