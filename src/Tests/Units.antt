-- ===== src/Tests/Units.antt =====
-- Identities, clocks, units and events at concrete values.
use udp_kcp_plugin.Base.{◌+◌, ◌≤◌, ◌≡◌, ◌↔◌, ◌⊎◌, some, [], arith, u32_mod, length}
use udp_kcp_plugin.Base.Hoare.{Returns}
use udp_kcp_plugin.System.{Addr}
use udp_kcp_plugin.Address.{make_unique_id, IsAddr}
use udp_kcp_plugin.Address.Laws.{make_unique_id_iff, make_unique_id_collides, weight}
use udp_kcp_plugin.Clock.{TimeOfDay}
use udp_kcp_plugin.Dispatch.{max_req_per_time, dispatch_update}
use udp_kcp_plugin.Dispatch.Laws.{WaitFits, dispatch_update-fits}
use udp_kcp_plugin.Tests.{sample, ready_now-fits}

-- The peer whose IP is larger by 2^16, and the one whose port is larger by 1.
abbrev far : Addr
far = record { ip = 16842879; port = 36895 }

abbrev near : Addr
near = record { ip = 16777343; port = 36896 }

far-IsAddr : IsAddr far
far-IsAddr = record { ip_fits = omega arith; port_fits = omega arith }

near-IsAddr : IsAddr near
near-IsAddr = record { ip_fits = omega arith; port_fits = omega arith }

make_unique_id_iff_example : (make_unique_id far ≡ make_unique_id near) ↔ (
    (weight far ≡ weight near)
    ⊎ (weight far ≡ weight near + u32_mod)
    ⊎ (weight near ≡ weight far + u32_mod))
make_unique_id_iff_example = make_unique_id_iff far near far-IsAddr near-IsAddr

make_unique_id_collides_example : make_unique_id far ≡ make_unique_id near
make_unique_id_collides_example =
    make_unique_id_collides 16777343 36895 1 (omega arith) (omega arith)

abbrev early : TimeOfDay
early = record { sec = 1700000000; usec = 999999 }

abbrev late : TimeOfDay
late = record { sec = 1700000001; usec = 5 }

sample-WaitFits : WaitFits sample
sample-WaitFits = record { wait_fits = λ l d n rs h. ready_now-fits n rs h }

dispatch_update-fits_example :
    Returns
      (λ r. (length r.0 ≤ 8) × (length r.0 ≤ max_req_per_time))
      (dispatch_update sample (some 3) 8 [])
dispatch_update-fits_example = dispatch_update-fits sample (some 3) 8 [] sample-WaitFits
