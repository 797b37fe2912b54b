-- ===== src/Tests/Clients.antt =====
-- The handshake, the echo and the failures of a client, on concrete objects.
use udp_kcp_plugin.Base.{◌≡◌, refl, none, some, [], ◌∷◌, arith, replicate, inr, pos, true, Option}
use udp_kcp_plugin.Base.Outcome.{ok, fault, out_of_bounds}
use udp_kcp_plugin.Base.Hoare.{Returns}
use udp_kcp_plugin.System.{Env, sent, received, Log}
use udp_kcp_plugin.Buffer.{u32_bytes, write_bytes}
use udp_kcp_plugin.Buffer.Laws.{written}
use udp_kcp_plugin.Plug.{kcp_recv, kcp_recv_without, drain_socket, kcp_send, copy_first}
use udp_kcp_plugin.Client.{
  Client, ClientType, accepted, connecting, client_recv, client_send, get_kcp_conv_id,
}
use udp_kcp_plugin.Client.Decimal.{decimal}
use udp_kcp_plugin.Client.Handshake.{
  IsNew, HasRoom, made_block, client_recv-accepted, client_recv-overrun,
}
use udp_kcp_plugin.Client.Agreement.{client_recv-agree, recv_all, recv_all-zero}
use udp_kcp_plugin.Client.Echo.{client_recv-echo}
use udp_kcp_plugin.Base.Tame.{Safe}
use udp_kcp_plugin.Server.View.{Proceeds, client_recv-Proceeds}
use udp_kcp_plugin.Tests.{os_with, env_with, sample, sample_without, fresh_of, hello}

fresh-IsNew : (k : Option ClientType) → IsNew (fresh_of k)
fresh-IsNew k = record { no_conv = refl; no_block = refl }

fresh-HasRoom : (k : Option ClientType) → HasRoom (fresh_of k)
fresh-HasRoom k = record { full_size = refl; at_start = refl }

abbrev named : Client
named = record (fresh_of (some accepted)) { conv_id = 77; block = some 77 }

client_recv-accepted_example :
    client_recv sample (fresh_of (some accepted)) (some hello) []
    ≡ ok (named, sent (some 7) (u32_bytes 77) ∷ made_block 77 77 [])
client_recv-accepted_example =
    client_recv-accepted sample refl (fresh_of (some accepted)) (some hello) 77 []
      (fresh-IsNew (some accepted)) refl (omega arith) refl

-- A system with a datagram of five bytes.
abbrev flooded : Env
flooded = env_with (os_with (replicate 5 1) true true) true

client_recv-overrun_example :
    client_recv flooded (fresh_of (some connecting)) none [] ≡ fault out_of_bounds
client_recv-overrun_example =
    client_recv-overrun flooded refl (fresh_of (some connecting)) none [] refl
      (fresh-IsNew (some connecting)) (fresh-HasRoom (some connecting)) refl
      (inr (replicate 5 1, refl, omega arith))

-- A system with the offer of conversation 77.
abbrev offered : Env
offered = env_with (os_with (u32_bytes 77) true true) true

client_recv-agree_example :
    (named.conv_id ≡ 77)
    × (named.block ≡ some 77)
    × Returns
        (λ r. (r.0.conv_id ≡ 77) × (r.0.block ≡ some 77))
        (client_recv offered (fresh_of (some connecting)) none [])
unfolding u32_bytes
client_recv-agree_example =
    client_recv-agree offered refl (fresh_of (some accepted)) named (fresh_of (some connecting))
      (some hello) none (u32_bytes 77) 77 77 [] (made_block 77 77 []) [] refl
      (fresh-IsNew (some accepted)) refl (omega arith) refl
      (client_recv-accepted offered refl (fresh_of (some accepted)) (some hello) 77 []
        (fresh-IsNew (some accepted)) refl (omega arith) refl)
      (fresh-IsNew (some connecting)) (fresh-HasRoom (some connecting)) refl refl refl

abbrev zero_id : Client
zero_id = record (fresh_of (some accepted)) { big_id = 0; block = some 0 }

recv_all-zero_example :
    recv_all sample refl zero_id (some hello ∷ none ∷ []) []
    ≡ ok (zero_id, sent (some 7) (u32_bytes 0) ∷ sent (some 7) (u32_bytes 0) ∷ [])
recv_all-zero_example =
    recv_all-zero sample refl zero_id (some hello ∷ none ∷ []) 0 [] refl refl refl refl

client_recv-echo_example :
    client_recv sample_without (fresh_of (some accepted)) none []
    ≡ ok (
      record (fresh_of (some accepted)) { buff = written (104 ∷ 105 ∷ replicate 510 0) 2 (0 ∷ []) },
      sent (some 7) (decimal 77) ∷ received (some 7) none ∷ received (some 7) (some hello) ∷ [],
    )
unfolding get_kcp_conv_id kcp_recv kcp_recv_without drain_socket client_send kcp_send copy_first
    write_bytes decimal
client_recv-echo_example =
    client_recv-echo sample_without (fresh_of (some accepted)) none (104 ∷ 105 ∷ replicate 510 0) 2
      (pos 2) [] (received (some 7) none ∷ received (some 7) (some hello) ∷ [])
      (sent (some 7) (decimal 77) ∷ received (some 7) none ∷ received (some 7) (some hello) ∷ [])
      (λ h. absurd (cc)) (fresh-HasRoom (some accepted)) refl refl refl

client_recv-Proceeds_example :
    Safe
      (λ (r : Client × Log). Proceeds (fresh_of (some accepted)) r.0)
      (client_recv sample (fresh_of (some accepted)) (some hello) [])
client_recv-Proceeds_example =
    client_recv-Proceeds sample (fresh_of (some accepted)) (some hello) []
