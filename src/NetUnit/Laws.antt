-- ===== src/NetUnit/Laws.antt =====
-- A unit owns at most one socket and closes it once.
use udp_kcp_plugin.Base.{◌≡◌, ◌≢◌, refl, none, some, ◌∷◌}
use udp_kcp_plugin.Base.Outcome.{ok, ◌>>=◌}
use udp_kcp_plugin.System.{Handle, Log, closed}
use udp_kcp_plugin.NetUnit.{fresh_sock, set_handle, net_unit_destroy}

-- A unit that was given two sockets holds the first, and destroying it closes that one, once: the
-- member is left invalid, so destroying it again closes nothing.
net_unit_destroy-set_handle :
    (first second : Handle) (l : Log)
    → first ≢ none
    → ((net_unit_destroy (set_handle (set_handle fresh_sock first) second) >>= net_unit_destroy) l
        ≡ ok (none, closed first ∷ l))
unfolding net_unit_destroy set_handle fresh_sock
net_unit_destroy-set_handle none second l h = absurd (h refl)
net_unit_destroy-set_handle (some a) second l h = refl
