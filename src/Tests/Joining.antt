-- ===== src/Tests/Joining.antt =====
-- Peers that come while others are in service, on a concrete system.
use udp_kcp_plugin.Base.{inl, ap, ◌≡◌, refl, [], ◌∷◌, arith, subst, some-injective, List, ℕ, none}
use udp_kcp_plugin.System.{Addr, Bytes, KcpRecvFits}
use udp_kcp_plugin.Base.Assoc.{lookup}
use udp_kcp_plugin.Clock.{TimeOfDay}
use udp_kcp_plugin.Plug.Messages.{Quiet}
use udp_kcp_plugin.Server.{World, Server}
use udp_kcp_plugin.Server.Service.{InService}
use udp_kcp_plugin.Server.Attends.{OnlyFrom}
use udp_kcp_plugin.Base.Hoare.{Returns}
use udp_kcp_plugin.Server.Sound.{IsSound}
use udp_kcp_plugin.Server.Welcome.{Works}
use udp_kcp_plugin.Server.Run.{server_update}
use udp_kcp_plugin.Server.Answers.{Heard, Answered}
use udp_kcp_plugin.Server.Joins.{With, server_update-joins}
use udp_kcp_plugin.Tests.{knocking, peer, knocked, hello}
use udp_kcp_plugin.Address.{make_unique_id}
use udp_kcp_plugin.Tests.Plugs.{sample-Quiet, sample-KcpRecvFits}
use udp_kcp_plugin.Server.Hosting.{Entry, Opens, Welcomes, Hosts, Hosting}
use udp_kcp_plugin.Server.Program.{main}
use udp_kcp_plugin.Server.Finishes.{Comes, Finished, main-finishes}
use udp_kcp_plugin.Server.Hosts.{Follows}
use udp_kcp_plugin.Tests.Services.{open_for_one, open_for_one-InService, speaking, noon}

knocking-Works : (port : ℕ) → Works knocking 7 (make_unique_id peer) peer port
knocking-Works port = record {
  linux = refl;
  kcp_on = refl;
  binds = λ l. refl;
  connects = λ l. refl;
  attaches = λ l d u. refl;
  arms = λ l d u. refl;
  creates = λ l. refl;
}

knocking-Heard : Heard knocking (open_for_one.server) hello peer
knocking-Heard = record {
  event = knocked;
  is_server = refl;
  input_only = refl;
  waits = λ l. refl;
  arrives = λ l. refl;
}

pub open_for_one-IsSound : IsSound open_for_one
unfolding lookup
open_for_one-IsSound = record {
  fresh = (omega arith, tt);
  entries = ((speaking, refl, refl), tt);
  distinct = (refl, tt);
}

server_update-joins_example :
    Returns
      (λ (r : Unit {0} × World).
        Answered knocking 7 (make_unique_id peer) peer open_for_one r
        × InService knocking (With (λ q. q ≡ 1) 2) (λ b bs. Unit {0}) r.1)
      (server_update knocking 10 open_for_one)
unfolding lookup make_unique_id
server_update-joins_example =
    server_update-joins knocking (λ q. q ≡ 1) (λ b bs. Unit {0}) open_for_one 10 7
      (make_unique_id peer) peer hello open_for_one-IsSound
      (open_for_one-InService knocking (λ b bs. Unit {0}) refl tt) (knocking-Works 8080) (λ l. refl)
      knocking-Heard refl (λ x. absurd (cc)) tt

knocking-Quiet : Quiet knocking
knocking-Quiet = record {
  waiting = sample-Quiet.waiting;
  messages = sample-Quiet.messages;
  waiting_bounded = sample-Quiet.waiting_bounded;
  messages_bounded = sample-Quiet.messages_bounded;
  fed = sample-Quiet.fed;
  drained = sample-Quiet.drained;
}

knocking-KcpRecvFits : KcpRecvFits knocking
knocking-KcpRecvFits = record { kcp_recv_fits = sample-KcpRecvFits.kcp_recv_fits }

knocking-Follows : (w : World) (ts : List TimeOfDay) → Follows knocking w ts
knocking-Follows w [] = tt
knocking-Follows w (t ∷ ts) = (
  λ v rs got h. subst (OnlyFrom (Entry v)) (some-injective _ rs h) (inl refl, tt),
  λ v got. knocking-Follows v ts,
)

peer-Opens : (port : ℕ) → Opens knocking (λ b bs. Unit {0}) port peer
unfolding make_unique_id
peer-Opens port = record {
  fd = λ l. 7;
  b = make_unique_id peer;
  opens = λ l. refl;
  works = λ l. knocking-Works port;
  some_id = λ x. absurd (cc);
  kind = tt;
}

knocking-Welcomes : (s : Server) → Welcomes knocking (λ b bs. Unit {0}) s
knocking-Welcomes s l bs a h =
    subst (Opens knocking (λ b bs. Unit {0}) s.port)
      (ap (λ (x : Bytes × Addr). x.1) (some-injective _ (bs, a) h)) (peer-Opens s.port)

-- The server is made and listens, and the peer comes and talks.
main-finishes_example :
    Comes knocking
      (λ b bs. Unit {0})
      (Finished knocking (λ b bs. Unit {0}))
      (main knocking none none (noon ∷ noon ∷ []) [])
main-finishes_example =
    main-finishes knocking (λ b bs. Unit {0}) knocking-Quiet knocking-KcpRecvFits refl none none
      (noon ∷ noon ∷ []) [] refl ((λ k. refl), tt)
      (λ s l v made listens. (knocking-Follows v (noon ∷ noon ∷ []), knocking-Welcomes v.server))
