-- ===== src/Dispatch.antt =====
-- The event dispatcher on Linux: wheel/src/NetDispatch.h and the `__LINUX__` half of
-- wheel/src/NetDispatch.cpp.
pub mod Windows
pub mod Laws
use Prim.Native.Nat.{bit_or}
use udp_kcp_plugin.Base.{
  ℕ, Bool, true, false, none, some, List, [], map, ltb, is_set, ◌||◌, if◌then◌else◌,
}
use udp_kcp_plugin.Base.Outcome.{Prog, pure, ◌>>=◌, ◌>>◌}
use udp_kcp_plugin.System.{Handle, UnitRef, Ready, Log, Env, dispatch_closed}
use udp_kcp_plugin.System.Calls.{note, open_dispatch, attach, arm, wait}

-- enum NetEvent
abbrev pub ene_read : ℕ
ene_read = 1

abbrev pub ene_write : ℕ
ene_write = 2

abbrev pub ene_close : ℕ
ene_close = 4

abbrev pub max_req_per_time : ℕ
max_req_per_time = 1024

-- enum NetEventOp and enum NetProtocolType
pub data NetEventOp : Type 0 where
  add mod_ del : NetEventOp

-- ENUT_LISTEN and ENUT_CLIENT
pub data NetUnitType : Type 0 where
  listen peer_client : NetUnitType

pub data NetProtocolType : Type 0 where
  udp tcp : NetProtocolType

-- NetEventInfo on Linux
pub record NetEventInfo : Type 0 where
  pub evt : ℕ
  pub userdata : UnitRef

-- The bits of one `epoll_event`, translated.
unfoldable pub translate : Ready → NetEventInfo
translate r =
    let closing = if r.has_err || r.has_hup then bit_or 0 ene_close else 0 in
    let reading = if r.has_in then bit_or closing ene_read else closing in
    record { evt = if r.has_out then bit_or reading ene_write else reading; userdata = r.userdata }

-- `UnInit`, with the member that it leaves.
unfoldable pub un_init : Handle → Prog Log Handle
un_init none = pure none
un_init (some d) = do note (dispatch_closed (some d)); pure none

module _ (e : Env) where
  -- `Init`, over the member as it was, which stays where the call fails.
  unfoldable pub init : Handle → Prog Log (Handle × Bool)
  init dispatch = do
    made ← open_dispatch e
    (if is_set made then pure (made, true) else pure (dispatch, false))

  -- `attach` of the system is `epoll_ctl` with EPOLL_CTL_ADD, and on Windows
  -- `CreateIoCompletionPort`; either way the caller learns whether it succeeded.
  unfoldable pub attach_handle_to_dispatch : Handle → Handle → UnitRef → Prog Log Bool
  attach_handle_to_dispatch dispatch sock userdata = attach e dispatch sock userdata

  -- EPOLL_CTL_MOD, whatever `op` is.
  unfoldable pub ctl_event :
      Handle → NetEventOp → Handle → ℕ → UnitRef → NetProtocolType → Prog Log Bool
  ctl_event dispatch op sock ev userdata pt_type = arm e dispatch sock ev userdata

  -- The entries of `pEvtInfo` that are filled in: as many as the result says.
  unfoldable pub dispatch_update : Handle → ℕ → Prog Log (List NetEventInfo)
  dispatch_update dispatch n_max_num = do
    got ← wait e dispatch (if ltb max_req_per_time n_max_num then max_req_per_time else n_max_num)
    elim got [ none ↦ pure [] | some ready ↦ pure (map translate ready) ]
