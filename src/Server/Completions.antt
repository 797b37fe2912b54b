-- ===== src/Server/Completions.antt =====
-- The loop on Windows, where operations finish with no bytes.
use udp_kcp_plugin.Base.{◌≤◌, ◌≡◌, refl, some, List, [], ◌∷◌, ◌++◌, map, arith, length, drop}
use udp_kcp_plugin.Base.Outcome.{ok}
use udp_kcp_plugin.System.{Log, Env, Completion, waited}
use udp_kcp_plugin.Dispatch.{ene_close, max_req_per_time}
use udp_kcp_plugin.Dispatch.Windows.{
  WinEvent, Posts, translate_completion, translate_all, dispatch_update_windows,
}
use udp_kcp_plugin.Server.{World, lift, get, set_posts, set_server}
use udp_kcp_plugin.Server.Run.{handle_event_windows, handle_all_windows, poll_windows}

-- No operation brought any bytes.
abbrev AllEmpty : List Completion → Type 0
AllEmpty [] = Unit {0}
AllEmpty (c ∷ cs) = (length c.bytes ≡ 0) × AllEmpty cs

-- The entry of an operation that brought none.
abbrev pub closing : Completion → WinEvent
closing c = record { evt = ene_close; info = c.info }

length-map-closing : (cs : List Completion) → length (map closing cs) ≡ length cs
length-map-closing [] = refl
length-map-closing (c ∷ cs) = omega (arith, length-map-closing cs)

translate_all-empty :
    (cs : List Completion) (olds : List WinEvent) (p : Posts) (l : Log)
    → AllEmpty cs
    → length cs ≤ length olds
    → translate_all cs olds p l ≡ ok ((p, map closing cs), l)
unfolding translate_all translate_completion
translate_all-empty [] olds p l h k = refl
translate_all-empty (c ∷ cs) [] p l h k = absurd (omega arith)
translate_all-empty (c ∷ cs) (old ∷ olds) p l (h, hs) k =
    simp (h, translate_all-empty cs olds p l hs (omega arith))

module _ (e : Env) where
  handle_all_windows-closing :
      (cs : List Completion) (w : World) → handle_all_windows e (map closing cs) w ≡ ok (tt, w)
  unfolding handle_all_windows handle_event_windows
  handle_all_windows-closing [] w = refl
  handle_all_windows-closing (c ∷ cs) w = handle_all_windows-closing cs w

  -- The bug: on Windows, a round in which every finished operation brought no bytes, as an empty
  -- datagram does, and in which there are at most as many as the array of events has room for, writes
  -- their entries and does nothing else: no operation is posted again, and the objects of the finished
  -- operations stay allocated.
  pub poll_windows-empty :
      (w : World) (cs : List Completion)
      → e.os.completions w.log w.server.dispatch max_req_per_time ≡ some cs
      → AllEmpty cs
      → length cs ≤ length w.server.events
      → poll_windows e w
        ≡ ok (
          tt,
          record w {
            log = waited w.server.dispatch max_req_per_time ∷ w.log;
            server = record (w.server) {
              events = map closing cs ++ drop (length cs) w.server.events;
            };
          },
        )
  unfolding poll_windows lift get set_posts set_server dispatch_update_windows
  poll_windows-empty w cs got empty room = simp (
    got,
    translate_all-empty cs w.server.events w.posts
        (waited w.server.dispatch max_req_per_time ∷ w.log) empty room,
    length-map-closing cs,
    handle_all_windows-closing cs,
  )
