-- ===== src/Tests/Starting.antt =====
-- A run of the whole program in which a peer is taken on and its client is reported after that.
use udp_kcp_plugin.Base.{
  ◌≡◌, refl, sym, ap, ◌∙◌, some-injective, subst, none, some, [], ◌∷◌, true, false, length, ltb,
  take, if◌then◌else◌, Bool-cases, inl, inr,
}
use udp_kcp_plugin.Base.Outcome.{ok, fault}
use udp_kcp_plugin.Base.Tame.{Safe}
use udp_kcp_plugin.Base.Hoare.{Returns}
use udp_kcp_plugin.Base.Assoc.{lookup, insert}
use udp_kcp_plugin.Base.{Bool}
use udp_kcp_plugin.System.{Env, Ready, Log, client}
use udp_kcp_plugin.NetUnit.{set_handle, fresh_sock}
use udp_kcp_plugin.Socket.{prepare}
use udp_kcp_plugin.Dispatch.{dispatch_update, attach_handle_to_dispatch, ctl_event, translate, init}
use udp_kcp_plugin.Client.{client_recv, set_client_type, new_client, Client}
use udp_kcp_plugin.Plug.{get_kcp_conv_id, new_kcp_plug_control_block}
use udp_kcp_plugin.Buffer.{u32_bytes, le_word}
use udp_kcp_plugin.Address.{make_unique_id}
use udp_kcp_plugin.Clock.{iclock}
use udp_kcp_plugin.Server.{Server, World, lift, get, set_server, ctl_udp_event, get_handle}
use udp_kcp_plugin.Server.Life.{new_server, new_members}
use udp_kcp_plugin.Server.Run.{
  update_client, poll_linux, handle_all_linux, server_update, try_listen, start_listen, set_run,
}
use udp_kcp_plugin.Server.Sound.{IsSound, SameStore}
use udp_kcp_plugin.Server.Loop.{AllReady, update_client-Safe}
use udp_kcp_plugin.Server.Turns.{Turns}
use udp_kcp_plugin.Server.Rounds.{done, round, Rounds, Rounds-Turns, Reports}
use udp_kcp_plugin.Server.Program.{main, make_server, born}
use udp_kcp_plugin.Server.Whole.{Stands, ReportsFrom, main-Safe}
use udp_kcp_plugin.Tests.{knocked, os_with, env_with, hello, peer, idle}
use udp_kcp_plugin.Tests.Services.{noon}

abbrev answering : Ready
answering = record {
  has_err = false;
  has_hup = false;
  has_in = true;
  has_out = false;
  userdata = client 1;
}

-- The peer knocks as long as there were few calls, and from then on its client has input.
abbrev starting : Env
starting =
    env_with
      (record (os_with hello true true) {
        wait = λ l d n. some ((if ltb (length l) 12 then knocked else answering) ∷ []);
        recv_from = λ l h n. some (take n hello, peer);
      })
      true

abbrev made : Server × Log
made = elim (make_server starting none none []) [ ok r ↦ r | fault f ↦ (idle.server, []) ]

abbrev listened : World
listened = elim (try_listen starting (born made.0 made.1)) [ ok r ↦ r.1 | fault f ↦ idle ]

abbrev joined : World
joined = elim (server_update starting (iclock noon) listened) [ ok r ↦ r.1 | fault f ↦ idle ]

listened-first : Reports starting listened (iclock noon)
unfolding update_client make_server new_server init new_members try_listen start_listen prepare
    set_handle fresh_sock set_server set_run ctl_udp_event get_handle attach_handle_to_dispatch
    ctl_event
listened-first = (
  λ on v rs got h.
      let first : starting.os.wait v.log v.server.dispatch 1024 ≡ some (knocked ∷ []) =
        subst
          (Returns (λ (r : Unit {0} × World).
            starting.os.wait r.1.log r.1.server.dispatch 1024 ≡ some (knocked ∷ [])))
          got refl in
      subst (AllReady v) (some-injective _ rs (sym first ∙ h)) (tt, tt),
  λ off. absurd (cc),
)

ran : server_update starting (iclock noon) listened ≡ ok (tt, joined)
unfolding make_server new_server init new_members try_listen start_listen prepare set_handle
    fresh_sock set_server set_run ctl_udp_event get_handle update_client poll_linux handle_all_linux
    attach_handle_to_dispatch ctl_event server_update dispatch_update translate lookup insert
    client_recv set_client_type new_client get_kcp_conv_id u32_bytes new_kcp_plug_control_block
    le_word make_unique_id lift get
ran = refl

first_round : Rounds starting listened (noon ∷ []) joined
unfolding make_server new_server init new_members try_listen start_listen prepare set_handle
    fresh_sock set_server set_run ctl_udp_event get_handle attach_handle_to_dispatch ctl_event
first_round = round noon refl listened-first ran done

newcomer : (c : Client) × (lookup 1 joined.heap ≡ some c)
unfolding make_server new_server init new_members try_listen start_listen prepare set_handle
    fresh_sock set_server set_run ctl_udp_event get_handle update_client poll_linux handle_all_linux
    attach_handle_to_dispatch ctl_event server_update dispatch_update translate lookup insert
    client_recv set_client_type new_client get_kcp_conv_id u32_bytes new_kcp_plug_control_block
    le_word make_unique_id lift get
newcomer = (_, refl)

listened-IsSound : IsSound listened
unfolding make_server new_server init new_members try_listen start_listen prepare set_handle
    fresh_sock set_server set_run ctl_udp_event get_handle attach_handle_to_dispatch ctl_event
listened-IsSound = record { fresh = tt; entries = tt; distinct = tt }

joined-Turns : Turns listened joined
unfolding make_server new_server init new_members try_listen start_listen prepare set_handle
    fresh_sock set_server set_run ctl_udp_event get_handle attach_handle_to_dispatch ctl_event
joined-Turns = Rounds-Turns starting listened joined (noon ∷ []) listened-IsSound tt first_round

joined-second : Reports starting joined (iclock noon)
joined-second = (
  λ on v rs got h.
      let same : Safe (λ (r : Unit {0} × World). SameStore joined r.1) (ok (tt, v)) =
        subst (Safe (λ (r : Unit {0} × World). SameStore joined r.1)) got (
          update_client-Safe starting (iclock noon) joined joined.server.clients
            joined-Turns.sound.entries) in
      let (c, live) = newcomer in
      elim (Bool-cases (ltb (length v.log) 12)) [
        | inl t ↦ subst (AllReady v) (some-injective _ rs (simp t at h)) (tt, tt)
        | inr f ↦
            subst (AllReady v) (some-injective _ rs (simp f at h))
              ((c, ap (lookup 1) same.same_heap ∙ live), tt)
      ],
  λ off. absurd (cc),
)

made-made : make_server starting none none [] ≡ ok made
unfolding make_server new_server init new_members
made-made = refl

listened-listened : try_listen starting (born made.0 made.1) ≡ ok (true, listened)
unfolding make_server new_server init new_members try_listen start_listen prepare set_handle
    fresh_sock set_server set_run ctl_udp_event get_handle attach_handle_to_dispatch ctl_event
listened-listened = refl

two_rounds : ReportsFrom starting listened (noon ∷ noon ∷ [])
two_rounds = (
  listened-first,
  λ v got. (
    subst (Returns (λ (r : Unit {0} × World). Reports starting r.1 (iclock noon))) (sym ran ∙ got)
        joined-second,
    λ u h. tt,
  ),
)

listened-ReportsFrom :
    (s : Server) (l : Log) (v : World)
    → make_server starting none none [] ≡ ok (s, l)
    → try_listen starting (born s l) ≡ ok (true, v)
    → ReportsFrom starting v (noon ∷ noon ∷ [])
listened-ReportsFrom s l v got listens =
    subst
      (Returns (λ (m : Server × Log).
        (u : World)
        → try_listen starting (born m.0 m.1) ≡ ok (true, u)
        → ReportsFrom starting u (noon ∷ noon ∷ [])))
      (sym made-made ∙ got)
      (λ u h.
        subst (Returns (λ (r : Bool × World). ReportsFrom starting r.1 (noon ∷ noon ∷ [])))
          (sym listened-listened ∙ h) two_rounds)
      v listens

-- The server is made, listens, takes a client on in its first round and reads it in the second.
main-Safe_example : Safe Stands (main starting none none (noon ∷ noon ∷ []) [])
main-Safe_example = main-Safe starting none none (noon ∷ noon ∷ []) [] listened-ReportsFrom
