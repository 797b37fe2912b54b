-- ===== src/System/Calls.antt =====
-- A call of the system or of the KCP library: its answer, and its entry in the log.
use udp_kcp_plugin.Base.{ℕ, Bool, Option, List, ℤ, ◌∷◌}
use udp_kcp_plugin.Base.Outcome.{ok, Prog}
use udp_kcp_plugin.System.{
  Bytes, Handle, Addr, UnitRef, Post, Ready, Completion, Event, Log, Env, opened, bound, connected,
  asked_name, closed, sent, received, received_from, kcp_created, kcp_updated, kcp_sent,
  kcp_received, dispatch_opened, attached, armed, waited, posted,
}

-- A call whose answer the code does not read.
abbrev pub note : Event → Prog Log (Unit {0})
note ev l = ok (tt, ev ∷ l)

abbrev pub close : Handle → Prog Log (Unit {0})
close h = note (closed h)

module _ (e : Env) where
  open e use {os, kcp}

  abbrev pub open_socket : Prog Log Handle
  open_socket l = ok (os.open_socket l, opened (os.open_socket l) ∷ l)

  abbrev pub bind : Handle → Addr → Prog Log Bool
  bind h a l = ok (os.bind l h a, bound h a (os.bind l h a) ∷ l)

  abbrev pub sock_name : Handle → Prog Log (Option Addr)
  sock_name h l = ok (os.sock_name l h, asked_name h ∷ l)

  abbrev pub connect : Handle → Addr → Prog Log Bool
  connect h a l = ok (os.connect l h a, connected h a (os.connect l h a) ∷ l)

  abbrev pub send : Handle → Bytes → Prog Log ℤ
  send h bs l = ok (os.send l h bs, sent h bs ∷ l)

  abbrev pub recv : Handle → ℕ → Prog Log (Option Bytes)
  recv h n l = ok (os.recv l h n, received h (os.recv l h n) ∷ l)

  abbrev pub recv_from : Handle → ℕ → Prog Log (Option (Bytes × Addr))
  recv_from h n l = ok (os.recv_from l h n, received_from h (os.recv_from l h n) ∷ l)

  abbrev pub open_dispatch : Prog Log Handle
  open_dispatch l = ok (os.open_dispatch l, dispatch_opened (os.open_dispatch l) ∷ l)

  abbrev pub attach : Handle → Handle → UnitRef → Prog Log Bool
  attach d h u l = ok (os.attach l d h u, attached d h u (os.attach l d h u) ∷ l)

  abbrev pub arm : Handle → Handle → ℕ → UnitRef → Prog Log Bool
  arm d h ev u l = ok (os.arm l d h ev u, armed d h ev u (os.arm l d h ev u) ∷ l)

  abbrev pub post : Post → Handle → ℕ → Prog Log Bool
  post k h i l = ok (os.post l k h i, posted k h i (os.post l k h i) ∷ l)

  abbrev pub wait : Handle → ℕ → Prog Log (Option (List Ready))
  wait d n l = ok (os.wait l d n, waited d n ∷ l)

  abbrev pub completions : Handle → ℕ → Prog Log (Option (List Completion))
  completions d n l = ok (os.completions l d n, waited d n ∷ l)

  abbrev pub ikcp_create : ℕ → Prog Log (Option ℕ)
  ikcp_create conv l = ok (kcp.create l conv, kcp_created conv (kcp.create l conv) ∷ l)

  abbrev pub ikcp_send : ℕ → Bytes → Prog Log ℤ
  ikcp_send b bs l = ok (kcp.send l b bs, kcp_sent b bs ∷ l)

  abbrev pub ikcp_recv : ℕ → ℕ → Prog Log (Option Bytes)
  ikcp_recv b n l = ok (kcp.recv l b n, kcp_received b (kcp.recv l b n) ∷ l)

  abbrev pub ikcp_update : ℕ → ℕ → Prog Log (List Bytes)
  ikcp_update b now l = ok (kcp.update l b now, kcp_updated b now ∷ l)
