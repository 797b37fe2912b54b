-- ===== src/System.antt =====
-- What the code calls and this repository does not implement: the operating system and the KCP
-- library (`wheel/src/ikcp.c`, a copy of an upstream project). Both are parameters: an answer of
-- theirs may depend on everything that was called before, which the log holds, newest first.
pub mod Calls
use udp_kcp_plugin.Base.{ℕ, Bool, Option, List, ℤ, ◌≤◌, ◌≡◌, some, length}

abbrev pub Bytes : Type 0
Bytes = List ℕ

-- SOCKET and DISPATCH_HANDLE; `none` is INVALID_SOCKET and INVALID_DISPATCH.
abbrev pub Handle : Type 0
Handle = Option ℕ

-- sockaddr_in: the numbers that `sin_addr.s_addr` and `sin_port` hold, in network byte order.
pub record Addr : Type 0 where
  pub ip : ℕ
  pub port : ℕ

-- A `NetUnit*`, as it travels through the dispatcher as `void* userdata`.
pub data UnitRef : Type 0 where
  server : UnitRef
  client : ℕ → UnitRef

-- The flags of an `epoll_event` that the code tests, and its `data.ptr`.
pub record Ready : Type 0 where
  pub has_err : Bool
  pub has_hup : Bool
  pub has_in : Bool
  pub has_out : Bool
  pub userdata : UnitRef

-- A finished overlapped read: the `NetEventInfo` that was posted, and what the system wrote there.
pub record Completion : Type 0 where
  pub info : ℕ
  pub bytes : Bytes
  pub from : Addr

-- Which of the two build switches are on, and the rounds given to loops that run until a call of
-- the system answers that nothing is left.
pub record Build : Type 0 where
  pub is_linux : Bool
  pub with_kcp : Bool
  pub fuel : ℕ

-- An overlapped operation: `WSARecvFrom`, `WSARecv` or `WSASend`.
pub data Post : Type 0 where
  recv_from_post recv_post send_post : Post

pub data Event : Type 0 where
  opened : Handle → Event
  made_reusable made_nonblocking : Handle → Event
  bound connected : Handle → Addr → Bool → Event
  asked_name : Handle → Event
  closed : Handle → Event
  sent : Handle → Bytes → Event
  received : Handle → Option Bytes → Event
  received_from : Handle → Option (Bytes × Addr) → Event
  kcp_created : ℕ → Option ℕ → Event
  kcp_nodelay : ℕ → ℕ → ℕ → ℕ → ℕ → Event
  kcp_wndsize : ℕ → ℕ → ℕ → Event
  kcp_setmtu : ℕ → ℕ → Event
  kcp_updated : ℕ → ℕ → Event
  kcp_sent kcp_input : ℕ → Bytes → Event
  kcp_received : ℕ → Option Bytes → Event
  kcp_released : ℕ → Event
  dispatch_opened dispatch_closed : Handle → Event
  attached : Handle → Handle → UnitRef → Bool → Event
  armed : Handle → Handle → ℕ → UnitRef → Bool → Event
  wsa_started wsa_cleaned : Event
  waited : Handle → ℕ → Event
  posted : Post → Handle → ℕ → Bool → Event

abbrev pub Log : Type 0
Log = List Event

-- The system's answers. A Boolean says that the call succeeded.
pub record Os : Type 0 where
  pub open_socket : Log → Handle
  pub bind : Log → Handle → Addr → Bool
  pub sock_name : Log → Handle → Option Addr
  pub connect : Log → Handle → Addr → Bool
  pub send : Log → Handle → Bytes → ℤ
  -- `none` is a negative result
  pub recv : Log → Handle → ℕ → Option Bytes
  pub recv_from : Log → Handle → ℕ → Option (Bytes × Addr)
  pub open_dispatch : Log → Handle
  pub attach : Log → Handle → Handle → UnitRef → Bool
  -- `epoll_ctl` with EPOLL_CTL_MOD, for a set of events
  pub arm : Log → Handle → Handle → ℕ → UnitRef → Bool
  -- an overlapped operation was started, or is done already
  pub post : Log → Post → Handle → ℕ → Bool
  -- `none` is a negative result
  pub wait : Log → Handle → ℕ → Option (List Ready)
  -- the empty list is a timeout, and `none` any other failure
  pub completions : Log → Handle → ℕ → Option (List Completion)

-- The answers of the KCP library: `ikcp_create`, `ikcp_send`, `ikcp_recv` (`none` is a negative
-- result), and the datagrams that `ikcp_update` hands to the output callback, in order.
pub record Kcp : Type 0 where
  pub create : Log → ℕ → Option ℕ
  pub send : Log → ℕ → Bytes → ℤ
  pub recv : Log → ℕ → ℕ → Option Bytes
  pub update : Log → ℕ → ℕ → List Bytes

pub record Env : Type 0 where
  pub os : Os
  pub kcp : Kcp
  pub build : Build

-- Documented of `recv` and `recvfrom`: at most as many bytes as the buffer holds are written.
pub record RecvFits (e : Env) : Type 0 where
  pub recv_fits :
      (l : Log) (h : Handle) (n : ℕ) (bs : Bytes) → e.os.recv l h n ≡ some bs → length bs ≤ n
  pub recv_from_fits :
      (l : Log) (h : Handle) (n : ℕ) (bs : Bytes) (a : Addr)
      → e.os.recv_from l h n ≡ some (bs, a)
      → length bs ≤ n

-- Documented of `ikcp_recv`: a message longer than the room given is refused.
pub record KcpRecvFits (e : Env) : Type 0 where
  pub kcp_recv_fits : (l : Log) (b n : ℕ) (bs : Bytes) → e.kcp.recv l b n ≡ some bs → length bs ≤ n
