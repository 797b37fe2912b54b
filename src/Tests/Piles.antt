-- ===== src/Tests/Piles.antt =====
-- Datagrams of a known peer at the server's own socket, on Windows.
use udp_kcp_plugin.Base.{some, ◌≡◌, ◌+◌, ◌⊎◌, refl, true, false, [], ◌∷◌, length}
use udp_kcp_plugin.Base.Outcome.{fault, out_of_bounds}
use udp_kcp_plugin.Base.Hoare.{Returns}
use udp_kcp_plugin.System.{Env}
use udp_kcp_plugin.Plug.{use_kcp_plug}
use udp_kcp_plugin.Client.{get_kcp_conv_id}
use udp_kcp_plugin.Plug.Messages.{Quiet}
use udp_kcp_plugin.Server.{World}
use udp_kcp_plugin.Server.Session.{Talks, Fills}
use udp_kcp_plugin.Server.Piles.{Posted, piled, deliver_all_windows, deliver_all_windows-piled}
use udp_kcp_plugin.Tests.{sample, hello}
use udp_kcp_plugin.Tests.Plugs.{sample-Quiet, sample-KcpRecvFits}
use udp_kcp_plugin.Tests.Servers.{serving, settled, caller, serving-Talks}

-- The same system and library, on Windows.
abbrev on_windows : Env
on_windows = record {
  os = sample.os;
  kcp = sample.kcp;
  build = record { is_linux = false; with_kcp = true; fuel = 4 };
}

on_windows-Quiet : Quiet on_windows
on_windows-Quiet = record {
  waiting = sample-Quiet.waiting;
  messages = sample-Quiet.messages;
  waiting_bounded = sample-Quiet.waiting_bounded;
  messages_bounded = sample-Quiet.messages_bounded;
  fed = sample-Quiet.fed;
  drained = sample-Quiet.drained;
}

serving-Talks_windows : Talks on_windows serving caller 1 settled
unfolding get_kcp_conv_id use_kcp_plug
serving-Talks_windows = record {
  entry = serving-Talks.entry;
  object = serving-Talks.object;
  past = λ h. absurd (cc);
  room = serving-Talks.room;
}

-- Three datagrams, and three more reads for the client.
deliver_all_windows-piled_example :
    Returns
      (λ (r : Unit {0} × World).
        Posted on_windows caller 1 (some 7) serving (hello ∷ [] ∷ hello ∷ []) r.1
        × (r.1.posts ≡ piled 1 3 serving.posts)
        × (length r.1.posts.infos ≡ length serving.posts.infos + 3))
      (deliver_all_windows on_windows caller (hello ∷ [] ∷ hello ∷ []) serving)
    ⊎ ((deliver_all_windows on_windows caller (hello ∷ [] ∷ hello ∷ []) serving
          ≡ fault out_of_bounds)
        × Fills on_windows settled)
deliver_all_windows-piled_example =
    deliver_all_windows-piled on_windows on_windows-Quiet
      (record { kcp_recv_fits = sample-KcpRecvFits.kcp_recv_fits }) serving caller 1 settled
      (hello ∷ [] ∷ hello ∷ []) refl refl serving-Talks_windows
