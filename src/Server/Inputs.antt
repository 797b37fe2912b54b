-- ===== src/Server/Inputs.antt =====
-- The loop on Linux against a plain description of it: who is read, and in which order.
use udp_kcp_plugin.Base.{
  ◌≡◌, refl, Bool, not, ◌&&◌, ◌||◌, Option, none, some, List, [], ◌∷◌, map, if◌then◌else◌,
  Bool-cases, inl, inr,
}
use udp_kcp_plugin.Base.Outcome.{chain, Prog, pure, ◌>>◌}
use udp_kcp_plugin.System.{Log, Env, Ready, UnitRef, waited}
use udp_kcp_plugin.Dispatch.{NetEventInfo, translate, dispatch_update, max_req_per_time}
use udp_kcp_plugin.Server.{World, lift}
use udp_kcp_plugin.Server.Run.{unit_recv_linux, handle_all_linux, poll_linux}
use udp_kcp_plugin.Server.Sockets.{handle_event_linux-translate}

-- Input and nothing else.
abbrev pub only_input : Ready → Bool
only_input r = r.has_in && not (r.has_err || r.has_hup || r.has_out)

-- The units that have only input, in the order in which they are reported.
abbrev pub heard : List Ready → List UnitRef
heard [] = []
heard (r ∷ rs) = if only_input r then r.userdata ∷ heard rs else heard rs

-- What a failed wait reports.
abbrev pub reported : Option (List Ready) → List Ready
reported none = []
reported (some rs) = rs

module _ (e : Env) where
  -- `Recv` of each unit.
  abbrev pub recv_each : List UnitRef → Prog World (Unit {0})
  recv_each [] = pure tt
  recv_each (u ∷ us) = unit_recv_linux e u >> recv_each us

  handle_all_linux-recv_each :
      (rs : List Ready) (w : World)
      → handle_all_linux e (map translate rs) w ≡ recv_each (heard rs) w
  unfolding handle_all_linux
  handle_all_linux-recv_each [] w = refl
  handle_all_linux-recv_each (r ∷ rs) w = elim (Bool-cases (only_input r)) [
    | inl t ↦ rw (handle_event_linux-translate e r w) (
        simp t
          (λ i. chain (unit_recv_linux e r.userdata w) (λ x v. handle_all_linux-recv_each rs v i)))
    | inr f ↦ rw (handle_event_linux-translate e r w) (simp f (handle_all_linux-recv_each rs w))
  ]

  -- A round on Linux behind `UpdateClient`, from every state: one wait for events, and then `Recv` of
  -- the units that it reported with input and nothing else, in the order of the report and once for
  -- each, where a failed wait reports none.
  pub poll_linux-recv_each :
      (w : World)
      → poll_linux e w
        ≡ recv_each
            (heard (reported (e.os.wait w.log w.server.dispatch max_req_per_time)))
            (record w { log = waited w.server.dispatch max_req_per_time ∷ w.log })
  unfolding poll_linux dispatch_update lift
  poll_linux-recv_each w = answer (e.os.wait w.log w.server.dispatch max_req_per_time)
    where
      v : World
      v = record w { log = waited w.server.dispatch max_req_per_time ∷ w.log }

      answer :
          (got : Option (List Ready))
          → chain
              (lift
                ((elim got as (λ _. Prog Log (List NetEventInfo)) [
                  | none ↦ pure []
                  | some ready ↦ pure (map translate ready)
                ]))
                v)
              (handle_all_linux e)
            ≡ recv_each (heard (reported got)) v
      answer none = refl
      answer (some rs) = handle_all_linux-recv_each rs v
