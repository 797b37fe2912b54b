-- ===== src/Tests/Services.antt =====
-- Clients in service, on a concrete system.
use udp_kcp_plugin.Base.{ℕ, take, ◌≡◌, refl, some, true, false, [], ◌∷◌, subst, sym}
use udp_kcp_plugin.System.{Bytes, Env, Ready, client}
use udp_kcp_plugin.Base.Assoc.{lookup}
use udp_kcp_plugin.Clock.{TimeOfDay}
use udp_kcp_plugin.Plug.{use_kcp_plug}
use udp_kcp_plugin.Client.{Client, accepted, get_kcp_conv_id}
use udp_kcp_plugin.Client.Decimal.{decimal}
use udp_kcp_plugin.Server.{World}
use udp_kcp_plugin.Server.Service.{InService, Speaks}
use udp_kcp_plugin.Server.Attends.{Attends}
use udp_kcp_plugin.Tests.{knocked, os_with, kcp_sample, answer, hello, idle, fresh_of}
use udp_kcp_plugin.Tests.Servers.{caller}

-- In every round the client at address 1 has input; a message waits once four calls are done.
abbrev asking : Ready
asking = record {
  has_err = false;
  has_hup = false;
  has_in = true;
  has_out = false;
  userdata = client 1;
}

abbrev asked : Env
asked = record {
  os = record (os_with hello true true) {
    wait = λ l d n. some (knocked ∷ asking ∷ []);
    recv_from = λ l h n. some (take n hello, caller);
  };
  kcp = record kcp_sample { recv = λ l b n. answer l n 4 hello };
  build = record { is_linux = true; with_kcp = true; fuel = 4 };
}

abbrev pub speaking : Client
speaking = record (fresh_of (some accepted)) { conv_id = 77; block = some 77 }

abbrev pub open_for_one : World
open_for_one = record idle {
  heap = (1, speaking) ∷ [];
  next = 2;
  server = record (idle.server) { clients = (77, 1) ∷ [] };
}

-- Only the client at address 1 is in service, and it answers the text of 77.
pub open_for_one-InService :
    (e : Env) (Kind : ℕ → Bytes → Type 0)
    → e.build.with_kcp ≡ true
    → Kind 77 (decimal 77)
    → InService e (λ q. q ≡ 1) Kind open_for_one
unfolding lookup get_kcp_conv_id use_kcp_plug
open_for_one-InService e Kind on kind = record {
  entries = ((speaking, refl, refl), tt);
  speaks = λ q h. subst (Speaks e (λ q. q ≡ 1) Kind open_for_one) (sym h) (record {
    c = speaking;
    b = 77;
    object = refl;
    past = rw on (λ x. absurd (cc));
    block = refl;
    room = record { full_size = refl; at_start = refl };
    kind = kind;
  });
  all_answered = ((λ b. refl), tt);
}

abbrev pub noon : TimeOfDay
noon = record { sec = 43200; usec = 0 }
