-- ===== src/Client.antt =====
-- A peer's client object: wheel/src/UDPClient.h and wheel/src/UDPClient.cpp. A method takes the
-- object's fields and returns them; `this` in a callback is the object whose method is running.
pub mod Decimal
pub mod Handshake
pub mod Agreement
pub mod Echo
pub mod Members
pub mod Conversation
pub mod Tame
pub mod Connect
pub mod Ends
pub mod Answering
pub mod Replies
use udp_kcp_plugin.Base.{
  ℕ, ◌+◌, ◌-◌, Bool, true, false, Option, none, some, [], ◌∷◌, ltb, ◌==◌, is_set, not, ◌&&◌, ℤ, pos,
  if◌then◌else◌, length, replicate,
}
use udp_kcp_plugin.Base.Outcome.{Prog, pure, abort, ◌>>=◌, ◌>>◌, out_of_bounds}
use udp_kcp_plugin.System.{Bytes, Handle, Addr, Log, Env}
use udp_kcp_plugin.System.Calls.{send, recv}
use udp_kcp_plugin.Address.{make_unique_id}
use udp_kcp_plugin.NetUnit.{fresh_sock, set_handle, net_unit_destroy}
use udp_kcp_plugin.Buffer.{write_bytes, u32_bytes}
use udp_kcp_plugin.Plug.{
  Block, use_kcp_plug, get_kcp_conv_id as conv_id_of, kcp_release, new_kcp_plug_control_block,
  kcp_update, kcp_send, kcp_recv,
}
use Decimal.{decimal}

abbrev pub max_client_buff_len : ℕ
max_client_buff_len = 512

pub data ClientType : Type 0 where
  accepted connecting : ClientType

-- `kind` is `none` from the constructor until `SetClientType`: the member is not initialised.
pub record Client : Type 0 where
  pub sock : Handle
  pub addr : Addr
  pub block : Block
  pub buff : Bytes
  pub buff_offset : ℕ
  pub big_id : ℕ
  pub conv_id : ℕ
  pub kind : Option ClientType

-- The members that no constructor sets are given as an address, an identity and a buffer of zeros.
abbrev blank : Client
blank = record {
  sock = none;
  addr = record { ip = 0; port = 0 };
  block = none;
  buff = replicate max_client_buff_len 0;
  buff_offset = 0;
  big_id = 0;
  conv_id = 0;
  kind = none;
}

unfoldable pub set_some_info_by_addr : Client → Addr → Client
set_some_info_by_addr c a = record c { addr = a; big_id = make_unique_id a }

-- `UDPClient()`.
unfoldable pub fresh_client : Client
unfolding fresh_sock
fresh_client = record blank { sock = fresh_sock }

-- `UDPClient(addinfo, soc)`.
unfoldable pub new_client : Addr → Handle → Client
unfolding set_some_info_by_addr fresh_client set_handle
new_client a soc =
    set_some_info_by_addr (record fresh_client { sock = set_handle fresh_client.sock soc }) a

unfoldable pub set_client_type : Client → ClientType → Client
set_client_type c t = record c { kind = some t }

-- `ReSetBuff`.
unfoldable pub reset_buff : Client → Prog Log Client
reset_buff c = do
  buff' ← write_bytes c.buff 0 (0 ∷ [])
  pure (record c { buff = buff'; buff_offset = 0 })

-- `CopyBuff`: it writes at the front of the buffer, whatever the offset is.
unfoldable pub copy_buff : Client → Option Bytes → Prog Log Client
copy_buff c (some (x ∷ xs)) = do
  buff' ← write_bytes c.buff 0 (x ∷ xs)
  pure (record c { buff = buff'; buff_offset = c.buff_offset + length (x ∷ xs) })
copy_buff c _ = pure c

-- `GetBuffLeftLen`, which would be negative where this is 0 for an offset past the end.
unfoldable pub get_buff_left_len : Client → ℕ
get_buff_left_len c = max_client_buff_len - c.buff_offset

-- `GetKcpPlugControlBlock`, `GetAddrInfo`, `GetBuffLen`, `GetUniqueID` and `GetClientType`.
abbrev pub get_kcp_plug_control_block : Client → Block
get_kcp_plug_control_block c = c.block

abbrev pub get_addr_info : Client → Addr
get_addr_info c = c.addr

abbrev pub get_buff_len : Client → ℕ
get_buff_len c = c.buff_offset

abbrev pub get_unique_id : Client → ℕ
get_unique_id c = c.big_id

abbrev pub get_client_type : Client → Option ClientType
get_client_type c = c.kind

-- The destructor of the class and of its base.
unfoldable pub destroy : Env → Client → Prog Log (Unit {0})
destroy e c = do kcp_release e (get_kcp_plug_control_block c); _ ← net_unit_destroy c.sock; pure tt

module _ (e : Env) where
  open e use {build}

  -- The callback that KCP gives its datagrams; `user` is the client.
  unfoldable pub output_callback : Option Client → Bytes → Prog Log ℤ
  output_callback none bs = pure (pos 0)
  output_callback (some c) bs = send e c.sock bs

  unfoldable pub update : Client → ℕ → Prog Log (Unit {0})
  unfolding output_callback
  update c now = kcp_update e (get_kcp_plug_control_block c) (output_callback (some c)) now

  unfoldable pub get_kcp_conv_id : Client → ℕ
  unfolding use_kcp_plug
  get_kcp_conv_id c = if use_kcp_plug e then c.conv_id else 1

  -- The block of a client that gets its conversation.
  unfoldable pub ensure_block : Client → Prog Log Client
  ensure_block c =
      if is_set c.block
      then pure c
      else (do block' ← new_kcp_plug_control_block e c.conv_id; pure (record c { block = block' }))

  unfoldable pub set_kcp_conv_id : Client → ℕ → Prog Log Client
  unfolding ensure_block
  set_kcp_conv_id c id = if c.conv_id == 0 then ensure_block (record c { conv_id = id }) else pure c

  unfoldable pub real_send : Client → Bytes → Prog Log ℤ
  real_send c bs = send e c.sock bs

  -- The received bytes stand at the front of the buffer; `none` is a negative result. Past an offset
  -- of 512 the length given to `recv` is negative, which is a huge `size_t`.
  unfoldable pub real_recv : Client → Prog Log (Client × Option Bytes)
  unfolding get_buff_left_len
  real_recv c = if ltb max_client_buff_len c.buff_offset then abort out_of_bounds else (do
    got ← recv e c.sock (get_buff_left_len c)
    elim got [
      | none ↦ pure (c, none)
      | some bs ↦ (do buff' ← write_bytes c.buff 0 bs; pure (record c { buff = buff' }, some bs))
    ])

  -- `Send` of the interface.
  unfoldable pub client_send : Client → Bytes → Prog Log ℤ
  unfolding get_kcp_conv_id real_send
  client_send c bs = if get_kcp_conv_id c == 0 then real_send c bs else kcp_send e c.block c.sock bs

  -- EUCT_ACCEPT: the identity becomes the conversation and is sent to the peer.
  unfoldable pub offer_conv : Client → Prog Log Client
  unfolding set_kcp_conv_id real_send
  offer_conv c = do
    conv ← conv_id_of e (some (u32_bytes (get_unique_id c)))
    c' ← set_kcp_conv_id c conv
    _ ← real_send c' (u32_bytes (get_unique_id c))
    pure c'

  -- EUCT_CONNECT: the first datagram names the conversation. On Linux it is read here.
  unfoldable pub take_conv : Client → Option Bytes → Prog Log Client
  unfolding set_kcp_conv_id real_recv
  take_conv c input =
      if build.is_linux
      then (do (c', got) ← real_recv c; conv ← conv_id_of e got; set_kcp_conv_id c' conv)
      else (do conv ← conv_id_of e input; set_kcp_conv_id c conv)

  -- The `switch`, for a client that has no conversation yet.
  unfoldable pub start_conv : Option ClientType → Client → Option Bytes → Prog Log (Client × Bool)
  unfolding offer_conv take_conv
  start_conv (some accepted) c input = do c' ← offer_conv c; pure (c', true)
  start_conv (some connecting) c input = do c' ← take_conv c input; pure (c', true)
  start_conv none c input = pure (c, false)

  unfoldable pub check_kcp_plug : Client → Option Bytes → Prog Log (Client × Bool)
  unfolding use_kcp_plug get_kcp_conv_id start_conv
  check_kcp_plug c input =
      if use_kcp_plug e && get_kcp_conv_id c == 0
      then start_conv (get_client_type c) c input
      else pure (c, false)

  -- The byte behind the data is overwritten, and the identity is sent back as text.
  unfoldable pub on_recv_data : Client → ℕ → Prog Log Client
  unfolding client_send
  on_recv_data c len = do
    buff' ← write_bytes c.buff len (0 ∷ [])
    _ ← client_send (record c { buff = buff' }) (decimal (get_unique_id c))
    pure (record c { buff = buff' })

  -- What `Recv` does with a datagram, once the conversation stands.
  unfoldable pub recv_data : Client → Option Bytes → Prog Log Client
  unfolding on_recv_data get_buff_left_len
  recv_data c input = do
    (buff', n) ← kcp_recv e c.block c.sock input c.buff (get_buff_left_len c)
    (if ltb 0 n
        then on_recv_data (record c { buff = buff' }) n
        else pure (record c { buff = buff' }))

  -- `Recv` of the interface; it returns 0.
  unfoldable pub client_recv : Client → Option Bytes → Prog Log Client
  unfolding check_kcp_plug recv_data
  client_recv c input = do
    (c', handled) ← check_kcp_plug c input
    if handled then pure c' else recv_data c' input
