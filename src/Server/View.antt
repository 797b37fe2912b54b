-- ===== src/Server/View.antt =====
-- The directory that a map and a heap stand for, and what changes of them make of it.
use udp_kcp_plugin.Base.{
  ℕ, ◌≡◌, ◌⊎◌, ◌∙◌, refl, inl, inr, Bool, false, Bool-cases, Option, none, some, List, ◌==◌,
  if◌then◌else◌,
}
use udp_kcp_plugin.Base.Assoc.{lookup, insert, lookup-insert}
use udp_kcp_plugin.Base.Tame.{Safe, Safe-both}
use udp_kcp_plugin.System.{Bytes, Log, Env}
use udp_kcp_plugin.Directory.{Session, Directory, Settles, offers, learns}
use udp_kcp_plugin.Client.{Client, ClientType, accepted, client_recv}
use udp_kcp_plugin.Client.Members.{SameUnit}
use udp_kcp_plugin.Client.Conversation.{Converses, client_recv-Converses}
use udp_kcp_plugin.Server.{World}
use udp_kcp_plugin.Client.Tame.{client_recv-Safe}

-- A client whose type is not set yet is one that a peer has begun: only `NewNetClient` makes those.
abbrev pub role_of : Option ClientType → ClientType
role_of none = accepted
role_of (some k) = k

abbrev pub session : Client → Session
session c = record { sock = c.sock; addr = c.addr; role = role_of c.kind; conv = c.conv_id }

abbrev pub session_of : Option Client → Option Session
session_of none = none
session_of (some c) = some (session c)

abbrev pub session_at : List (ℕ × Client) → Option ℕ → Option Session
session_at heap none = none
session_at heap (some p) = session_of (lookup p heap)

-- What an identity stands for: its entry's object, by its lasting members.
abbrev pub sessions : List (ℕ × Client) → List (ℕ × ℕ) → Directory
sessions heap m id = session_at heap (lookup id m)

abbrev pub view : World → Directory
view w = sessions w.heap w.server.clients

-- A member function leaves the session of an object as it was, or settles its conversation.
abbrev pub Proceeds : Client → Client → Type 0
Proceeds c c' =
    (c'.big_id ≡ c.big_id) × ((session c' ≡ session c) ⊎ Settles c.big_id (session c) (session c'))

SameUnit-session :
    (c c' : Client) → SameUnit c c' → session c' ≡ record (session c) { conv = c'.conv_id }
SameUnit-session c c' u = rw (u.same_sock, u.same_addr, u.same_kind) refl

Converses-Proceeds : (c c' : Client) → SameUnit c c' → Converses c c'.conv_id → Proceeds c c'
Converses-Proceeds c c' u (inl same) = (u.same_id, inl (SameUnit-session c c' u ∙ rw same refl))
Converses-Proceeds c c' u (inr (z, inl (k, n))) =
    (u.same_id, inr (offers (rw k refl) z (SameUnit-session c c' u ∙ rw n refl)))
Converses-Proceeds c c' u (inr (z, inr k)) =
    (u.same_id, inr (learns c'.conv_id (rw k refl) z (SameUnit-session c c' u)))

-- Any `Recv` is not ended by the use of an object that is not allocated, and where it returns, the
-- client has its identity, and its session (socket, address, which side began, conversation) is as it
-- was, or had no conversation and has one now: the identity's 32 bits where the peer began, and
-- any where this side began.
pub client_recv-Proceeds :
    (e : Env) (c : Client) (input : Option Bytes) (l : Log)
    → Safe (λ (r : Client × Log). Proceeds c r.0) (client_recv e c input l)
client_recv-Proceeds e c input l =
    Safe-both (λ (r : Client × Log). SameUnit c r.0) (λ (r : Client × Log). Converses c r.0.conv_id)
      (λ (r : Client × Log). Proceeds c r.0) (client_recv e c input l)
      (client_recv-Safe e c input l) (client_recv-Converses e c input l)
      λ r. Converses-Proceeds c r.0

-- Whether the entry of an identity is the object at `p`.
abbrev pub points : Option ℕ → ℕ → Bool
points none p = false
points (some q) p = p == q

pub session_at-insert :
    (heap : List (ℕ × Client)) (p : ℕ) (c' : Client) (o : Option ℕ)
    → session_at (insert p c' heap) o
      ≡ (if points o p then some (session c') else session_at heap o)
session_at-insert heap p c' none = refl
session_at-insert heap p c' (some q) = elim (Bool-cases (p == q)) [
  | inl t ↦ rw (lookup-insert p q c' heap) (simp t refl)
  | inr f ↦ rw (lookup-insert p q c' heap) (simp f refl)
]
