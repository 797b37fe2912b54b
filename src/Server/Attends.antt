-- ===== src/Server/Attends.antt =====
-- The loop on Linux, while no new peer comes.
use udp_kcp_plugin.Base.{
  ◌⊎◌, ℕ, ◌≡◌, refl, sym, subst, inl, inr, true, Option, none, some, List, [], ◌∷◌, Bool-cases,
}
use udp_kcp_plugin.Base.Assoc.{lookup}
use udp_kcp_plugin.Base.Outcome.{Outcome, ok, fault, chain, pure}
use udp_kcp_plugin.System.{
  Addr, server, received_from, Bytes, Log, Env, Ready, UnitRef, client, KcpRecvFits,
}
use udp_kcp_plugin.Address.{make_unique_id}
use udp_kcp_plugin.Client.{max_client_buff_len, client_recv}
use udp_kcp_plugin.Server.{lift, at_client, Server, World, get}
use udp_kcp_plugin.Server.Peers.{server_recv_linux, recv_at}
use udp_kcp_plugin.Plug.Messages.{Quiet}
use udp_kcp_plugin.Dispatch.{max_req_per_time}
use udp_kcp_plugin.Server.Inputs.{only_input, heard, reported}
use udp_kcp_plugin.Server.Reading.{at_client-Serves}
use udp_kcp_plugin.Server.Service.{InService, Serves}

-- A unit is the server or one of the clients in service.
abbrev pub IsOne : (ℕ → Type 0) → UnitRef → Type 0
IsOne In u = (u ≡ server) ⊎ ((q : ℕ) × (u ≡ client q) × In q)

-- No other unit is reported.
abbrev pub OnlyFrom : (ℕ → Type 0) → List Ready → Type 0
OnlyFrom In [] = Unit {0}
OnlyFrom In (r ∷ rs) = IsOne In r.userdata × OnlyFrom In rs

abbrev pub AllFrom : (ℕ → Type 0) → List UnitRef → Type 0
AllFrom In [] = Unit {0}
AllFrom In (u ∷ us) = IsOne In u × AllFrom In us

-- What the system has for a server, whenever it is asked: the dispatcher reports no other unit, and
-- the datagrams at the server's own socket are of peers whose clients are in service.
pub record Attends (e : Env) (In : ℕ → Type 0) (s : Server) : Type 0 where
  pub reports :
      (l : Log) (rs : List Ready)
      → e.os.wait l s.dispatch max_req_per_time ≡ some rs
      → OnlyFrom In rs
  pub known :
      (l : Log) (bs : Bytes) (a : Addr)
      → e.os.recv_from l s.sock max_client_buff_len ≡ some (bs, a)
      → (q : ℕ) × (lookup (make_unique_id a) s.clients ≡ some q) × In q

heard-AllFrom : (In : ℕ → Type 0) (rs : List Ready) → OnlyFrom In rs → AllFrom In (heard rs)
heard-AllFrom In [] h = tt
heard-AllFrom In (r ∷ rs) h = elim (Bool-cases (only_input r)) [
  | inl t ↦ simp t (h.0, heard-AllFrom In rs h.1)
  | inr f ↦ simp f (heard-AllFrom In rs h.1)
]

pub reported-AllFrom :
    (In : ℕ → Type 0) (o : Option (List Ready))
    → ((rs : List Ready) → o ≡ some rs → OnlyFrom In rs)
    → AllFrom In (heard (reported o))
reported-AllFrom In none h = tt
reported-AllFrom In (some rs) h = heard-AllFrom In rs (h rs refl)

pub chain-pure :
    {A : Type 0} (a : A) (r : Outcome (Unit {0} × World))
    → chain (chain r (λ _. pure a)) (λ _. pure tt) ≡ r
chain-pure a (ok (u, w)) = refl
chain-pure a (fault f) = refl

pub server_recv_linux-none :
    (e : Env) (w : World)
    → e.os.recv_from w.log w.server.sock max_client_buff_len ≡ none
    → server_recv_linux e w ≡ ok (tt, record w { log = received_from w.server.sock none ∷ w.log })
unfolding server_recv_linux get lift
server_recv_linux-none e w h = rw h refl

module _ (e : Env) (quiet : Quiet e) (fits : KcpRecvFits e) (on : e.build.with_kcp ≡ true)
    (In : ℕ → Type 0) (Kind : ℕ → Bytes → Type 0) where
  pub recv_at-Serves :
      (w : World) (bs : Bytes) (q : ℕ)
      → In q
      → InService e In Kind w
      → Serves e In Kind w (chain (recv_at e bs q w) (λ _. pure tt))
  unfolding recv_at
  recv_at-Serves w bs q inside s =
      subst (Serves e In Kind w)
        (sym (chain-pure (some q) (at_client q (λ c. client_recv e c (some bs)) w)))
        (at_client-Serves e In Kind quiet fits on w q (some bs) inside s)
