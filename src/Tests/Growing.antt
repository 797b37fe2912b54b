-- ===== src/Tests/Growing.antt =====
-- Runs in which a peer is taken on and its client is reported in a later round.
use udp_kcp_plugin.Base.{
  ◌≡◌, refl, sym, ap, ◌∙◌, some-injective, subst, some, [], ◌∷◌, true, false, length, ltb, take,
  if◌then◌else◌, Bool-cases, inl, inr,
}
use udp_kcp_plugin.Base.Outcome.{ok, fault}
use udp_kcp_plugin.Base.Tame.{Safe}
use udp_kcp_plugin.Base.Hoare.{Returns}
use udp_kcp_plugin.Base.Assoc.{lookup, insert}
use udp_kcp_plugin.System.{Env, Ready, client}
use udp_kcp_plugin.Server.{World}
use udp_kcp_plugin.Server.Run.{update_client, poll_linux, handle_all_linux, server_update}
use udp_kcp_plugin.Server.{lift, load}
use udp_kcp_plugin.Clock.{iclock}
use udp_kcp_plugin.Server.Rounds.{done, round, Rounds, Rounds-Safe, Rounds-Turns, Reports}
use udp_kcp_plugin.Server.Refines.{Rounds-Keeps}
use udp_kcp_plugin.Server.View.{view}
use udp_kcp_plugin.Dispatch.{dispatch_update, attach_handle_to_dispatch, ctl_event, translate}
use udp_kcp_plugin.Server.Sound.{SameStore}
use udp_kcp_plugin.Server.Loop.{AllReady, update_client-Safe}
use udp_kcp_plugin.Server.Turns.{Turns}
use udp_kcp_plugin.Tests.{knocked, os_with, env_with, hello, peer}
use udp_kcp_plugin.Tests.Services.{open_for_one, noon}
use udp_kcp_plugin.Tests.Joining.{open_for_one-IsSound}
use udp_kcp_plugin.Client.{client_recv, set_client_type, new_client, update, Client, accepted}
use udp_kcp_plugin.Plug.{get_kcp_conv_id, new_kcp_plug_control_block, kcp_update, output_all}
use udp_kcp_plugin.Buffer.{u32_bytes, le_word}
use udp_kcp_plugin.Address.{make_unique_id}

-- The peer knocks as long as there were few calls, and from then on its client has input.
abbrev answering : Ready
answering = record {
  has_err = false;
  has_hup = false;
  has_in = true;
  has_out = false;
  userdata = client 2;
}

abbrev growing : Env
growing =
    env_with
      (record (os_with hello true true) {
        wait = λ l d n. some ((if ltb (length l) 4 then knocked else answering) ∷ []);
        recv_from = λ l h n. some (take n hello, peer);
      })
      true

-- The state behind the round in which the peer is taken on.
abbrev grown : World
grown = elim (server_update growing (iclock noon) open_for_one) [
  | ok r ↦ r.1
  | fault f ↦ open_for_one
]

growing-first : Reports growing open_for_one (iclock noon)
unfolding update_client lookup update kcp_update output_all lift load
growing-first = (
  λ on v rs got h.
      let first : growing.os.wait v.log v.server.dispatch 1024 ≡ some (knocked ∷ []) =
        subst
          (Returns (λ (r : Unit {0} × World).
            growing.os.wait r.1.log r.1.server.dispatch 1024 ≡ some (knocked ∷ [])))
          got refl in
      subst (AllReady v) (some-injective _ rs (sym first ∙ h)) (tt, tt),
  λ off. absurd (cc),
)

first_round : Rounds growing open_for_one (noon ∷ []) grown
unfolding update_client update kcp_update output_all lift load poll_linux handle_all_linux
    attach_handle_to_dispatch ctl_event server_update dispatch_update translate lookup insert
    client_recv set_client_type new_client get_kcp_conv_id u32_bytes new_kcp_plug_control_block
    le_word make_unique_id
first_round = round noon refl growing-first refl done

newcomer : (c : Client) × (lookup 2 grown.heap ≡ some c)
unfolding update_client update kcp_update output_all lift load poll_linux handle_all_linux
    attach_handle_to_dispatch ctl_event server_update dispatch_update translate lookup insert
    client_recv set_client_type new_client get_kcp_conv_id u32_bytes new_kcp_plug_control_block
    le_word make_unique_id
newcomer = (_, refl)

growing-second : Reports growing grown (iclock noon)
growing-second = (
  λ on v rs got h.
      let before : Turns open_for_one grown =
        Rounds-Turns growing open_for_one grown (noon ∷ []) open_for_one-IsSound tt first_round in
      let same : Safe (λ (r : Unit {0} × World). SameStore grown r.1) (ok (tt, v)) =
        subst (Safe (λ (r : Unit {0} × World). SameStore grown r.1)) got (
          update_client-Safe growing (iclock noon) grown grown.server.clients
            before.sound.entries) in
      let (c, live) = newcomer in
      elim (Bool-cases (ltb (length v.log) 4)) [
        | inl t ↦ subst (AllReady v) (some-injective _ rs (simp t at h)) (tt, tt)
        | inr f ↦
            subst (AllReady v) (some-injective _ rs (simp f at h))
              ((c, ap (lookup 2) same.same_heap ∙ live), tt)
      ],
  λ off. absurd (cc),
)

-- Behind the round in which the peer is taken on, its client is reported and reads.
Rounds-Safe_example :
    Safe
      (λ (r : Unit {0} × World). Turns open_for_one r.1)
      (server_update growing (iclock noon) grown)
Rounds-Safe_example =
    Rounds-Safe growing open_for_one grown (noon ∷ []) noon open_for_one-IsSound tt first_round
      growing-second

-- The session that was there before is kept while the peer is taken on.
Rounds-Keeps_example :
    view grown 77 ≡ some (record { sock = some 7; addr = peer; role = accepted; conv = 77 })
unfolding lookup
Rounds-Keeps_example =
    Rounds-Keeps growing open_for_one grown (noon ∷ []) 77
      (record { sock = some 7; addr = peer; role = accepted; conv = 77 }) open_for_one-IsSound tt
      first_round refl (λ h. absurd (cc))
