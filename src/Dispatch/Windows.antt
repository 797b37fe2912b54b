-- ===== src/Dispatch/Windows.antt =====
-- The event dispatcher on Windows: the other half of wheel/src/NetDispatch.h and
-- wheel/src/NetDispatch.cpp. Each posted operation owns a `NetEventInfo`, allocated by `new`.
use udp_kcp_plugin.Base.{
  ℕ, suc, ◌/◌, ◌%◌, Bool, is_set, true, false, none, some, List, [], ◌∷◌, ltb, ◌==◌, ◌||◌,
  if◌then◌else◌, length,
}
use udp_kcp_plugin.Base.Assoc.{lookup, insert}
use udp_kcp_plugin.Base.Outcome.{
  Prog, pure, abort, ◌>>=◌, ◌>>◌, out_of_bounds, dead_pointer, breaks,
}
use udp_kcp_plugin.System.{
  dispatch_closed, Bytes, Handle, Addr, UnitRef, Completion, recv_from_post, recv_post, send_post,
  Log, Env,
}
use udp_kcp_plugin.System.Calls.{note, open_dispatch, post, completions}
use udp_kcp_plugin.Dispatch.{
  NetEventOp, add, mod_, del, NetProtocolType, udp, tcp, ene_read, ene_write, ene_close,
  max_req_per_time,
}

-- NetEventInfo on Windows; `buf` holds the bytes that were received.
pub record WinInfo : Type 0 where
  pub evt : ℕ
  pub userdata : UnitRef
  pub len : ℕ
  pub buf : Bytes
  pub addr : Addr

-- The allocated infos.
pub record Posts : Type 0 where
  pub infos : List (ℕ × WinInfo)
  pub next : ℕ

-- An entry of the server's array: `userdata` points to a posted info.
pub record WinEvent : Type 0 where
  pub evt : ℕ
  pub info : ℕ

-- `new NetEventInfo()`, with `evt` and `userdata` set; the new info is number `p.next`.
unfoldable pub new_info : Posts → ℕ → UnitRef → Posts
new_info p ev u = record {
  infos =
      (
        p.next,
        record { evt = ev; userdata = u; len = 0; buf = []; addr = record { ip = 0; port = 0 } },
      )
      ∷ p.infos;
  next = suc p.next;
}

-- One finished operation: the entry that it leaves in place of `old`, and its info.
unfoldable pub translate_completion : Completion → WinEvent → Posts → Prog Log (Posts × WinEvent)
translate_completion c old p =
    if length c.bytes == 0
    then pure (p, record { evt = ene_close; info = c.info })
    else (elim (lookup c.info p.infos) [
      | none ↦ abort dead_pointer
      | some i ↦
          if i.evt == ene_read || i.evt == ene_close
          then pure (
            record p {
              infos =
                  insert c.info (record i { len = length c.bytes; buf = c.bytes; addr = c.from })
                    p.infos;
            },
            record { evt = ene_read; info = c.info },
          )
          else pure (p, old)
    ])

-- The first entries of the array, one for each completion.
unfoldable pub translate_all :
    List Completion → List WinEvent → Posts → Prog Log (Posts × List WinEvent)
unfolding translate_completion
translate_all [] olds p = pure (p, [])
translate_all (c ∷ cs) [] p = abort out_of_bounds
translate_all (c ∷ cs) (old ∷ olds) p = do
  (p', ev) ← translate_completion c old p
  (p'', evs) ← translate_all cs olds p'
  pure (p'', ev ∷ evs)

-- `closedispatch`, which is `CloseHandle`.
abbrev pub close_dispatch : Handle → Prog Log (Unit {0})
close_dispatch d = note (dispatch_closed d)

-- `UnInit`, with the member that it leaves.
unfoldable pub un_init_windows : Handle → Prog Log Handle
un_init_windows none = pure none
un_init_windows (some d) = do close_dispatch (some d); pure none

module _ (e : Env) where
  -- The inner `switch` over the protocol: whether the operation is under way.
  unfoldable pub start_read : NetProtocolType → Handle → ℕ → Prog Log Bool
  start_read udp sock i = post e recv_from_post sock i
  start_read tcp sock i = post e recv_post sock i

  -- Over UDP nothing is sent here.
  unfoldable pub start_write : NetProtocolType → Handle → ℕ → Prog Log Bool
  start_write udp sock i = pure true
  start_write tcp sock i = post e send_post sock i

  unfoldable pub ctl_write :
      Handle → ℕ → UnitRef → NetProtocolType → Posts → Prog Log (Posts × Bool)
  unfolding start_write new_info
  ctl_write sock ev userdata pt_type p =
      if ev / 2 % 2 == 1
      then (do done ← start_write pt_type sock p.next; pure (new_info p ene_write userdata, done))
      else pure (p, true)

  unfoldable pub ctl_read_write :
      Handle → ℕ → UnitRef → NetProtocolType → Posts → Prog Log (Posts × Bool)
  unfolding start_read ctl_write new_info
  ctl_read_write sock ev userdata pt_type p =
      if ev % 2 == 1
      then (do
        done ← start_read pt_type sock p.next
        (if done
            then ctl_write sock ev userdata pt_type (new_info p ene_read userdata)
            else pure (new_info p ene_read userdata, false)))
      else ctl_write sock ev userdata pt_type p

  unfoldable pub ctl_event_windows :
      NetEventOp → Handle → ℕ → UnitRef → NetProtocolType → Posts → Prog Log (Posts × Bool)
  unfolding ctl_read_write
  ctl_event_windows add sock ev userdata pt_type p = ctl_read_write sock ev userdata pt_type p
  ctl_event_windows mod_ sock ev userdata pt_type p = ctl_read_write sock ev userdata pt_type p
  ctl_event_windows del sock ev userdata pt_type p = pure (p, true)

  -- `Init`, over the member as it was, which stays where the call fails.
  unfoldable pub init_windows : Handle → Prog Log (Handle × Bool)
  init_windows dispatch = do
    made ← open_dispatch e
    (if is_set made then pure (made, true) else pure (dispatch, false))

  -- The new posts and the entries that are filled in, over the array as it was.
  unfoldable pub dispatch_update_windows :
      Handle → ℕ → List WinEvent → Posts → Prog Log (Posts × List WinEvent)
  unfolding translate_all
  dispatch_update_windows dispatch n_max_num olds p = do
    got ←
        completions e dispatch
          (if ltb max_req_per_time n_max_num then max_req_per_time else n_max_num)
    elim got [ none ↦ abort breaks | some cs ↦ translate_all cs olds p ]
