-- ===== src/Directory.antt =====
-- What the server promises, without its objects: a directory from the identities of peers to their
-- sessions, and the steps in which it may change. It is a function, so it forgets the order of the map
-- and the addresses of the objects.
pub mod Laws
use udp_kcp_plugin.Base.{ℕ, ◌%◌, ◌≡◌, ◌⊎◌, Option, none, some, ◌==◌, if◌then◌else◌, u32_mod}
use udp_kcp_plugin.System.{Handle, Addr}
use udp_kcp_plugin.Address.{make_unique_id}
use udp_kcp_plugin.Client.{ClientType, accepted, connecting}

-- The socket to the peer, the peer's address, which side began, and the conversation, 0 for none.
pub record Session : Type 0 where
  pub sock : Handle
  pub addr : Addr
  pub role : ClientType
  pub conv : ℕ

abbrev pub Directory : Type 0
Directory = ℕ → Option Session

abbrev pub nobody : Directory
nobody id = none

abbrev pub put : ℕ → Session → Directory → Directory
put id s d k = if id == k then some s else d k

-- A session without a conversation gets one: its identity where the peer began, and where this side
-- began, what the peer says.
pub data Settles (id : ℕ) (s s' : Session) : Type 0 where
  offers : s.role ≡ accepted → s.conv ≡ 0 → s' ≡ record s { conv = id % u32_mod } → Settles id s s'
  learns :
      (conv : ℕ)
      → s.role ≡ connecting
      → s.conv ≡ 0
      → s' ≡ record s { conv = conv }
      → Settles id s s'

-- A peer that was not known is taken on under the identity of its address, or a session gets its
-- conversation. Nobody is forgotten.
pub data Step (d d' : Directory) : Type 0 where
  admits :
      (sock : Handle) (addr : Addr)
      → d (make_unique_id addr) ≡ none
      → d'
        ≡ put
            (make_unique_id addr)
            (record { sock = sock; addr = addr; role = accepted; conv = 0 })
            d
      → Step d d'
  settles :
      (id : ℕ) (s s' : Session) → d id ≡ some s → Settles id s s' → d' ≡ put id s' d → Step d d'

pub data Steps (d : Directory) : Directory → Type 0 where
  stays : Steps d d
  then_step : {d' d'' : Directory} → Steps d d' → Step d' d'' → Steps d d''
