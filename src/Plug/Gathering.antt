-- ===== src/Plug/Gathering.antt =====
-- Reading fills the buffer with what the system and the library hand out.
use udp_kcp_plugin.Base.{
  ℕ, zero, suc, ◌+◌, ◌-◌, ◌≤◌, ◌≡◌, refl, ◌∙◌, sym, ap, Option, none, some, ◌⊎◌, inl, inr, [], ◌∷◌,
  ◌++◌, arith, length, Option-cases, append-nil,
}
use udp_kcp_plugin.Base.Outcome.{ok, fault, out_of_fuel}
use udp_kcp_plugin.Base.Hoare.{Returns, IfReturns, IfReturns-chain, Returns-both}
use udp_kcp_plugin.System.{
  Bytes, Handle, Log, Env, RecvFits, KcpRecvFits, received, kcp_received, kcp_input,
}
use udp_kcp_plugin.Plug.Messages.{
  Quiet, feed_socket-end, feed_socket-more, kcp_recv_with-Returns, drain_block-full,
  drain_block-end, drain_block-step,
}
use udp_kcp_plugin.Plug.Socket.{
  Bytes-cases, drain_socket-full, drain_socket-Returns, drain_socket-step,
}
use udp_kcp_plugin.Plug.{
  Block, Read, max_udp_mtu, input_first, copy_first, feed_socket, drain_block, drain_socket,
  kcp_recv_with, kcp_recv_without,
}
use udp_kcp_plugin.Plug.Contents.{
  handed_out, read_off, filled, Gathers, write_bytes-first, write_bytes-filled, more, length-filled,
}

module _ (e : Env) where
  pub drain_block-starved :
      (b : ℕ) (buf : Bytes) (n m : ℕ) (l : Log)
      → drain_block e zero b buf n (suc m) l ≡ fault out_of_fuel
  unfolding drain_block
  drain_block-starved b buf n m l = ground arith

  drain_socket-starved :
      (soc : Handle) (buf : Bytes) (n m : ℕ) (l : Log)
      → drain_socket e zero soc buf n (suc m) l ≡ fault out_of_fuel
  unfolding drain_socket
  drain_socket-starved soc buf n m l = ground arith

  -- What ends the loop is in the log, and hands out nothing.
  drain_socket-nothing :
      (fuel : ℕ) (soc : Handle) (buf : Bytes) (n m : ℕ) (l : Log)
      → (e.os.recv l soc (suc m) ≡ none) ⊎ (e.os.recv l soc (suc m) ≡ some [])
      → (l' : Log) × (read_off l' ≡ read_off l)
        × (drain_socket e (suc fuel) soc buf n (suc m) l ≡ ok ((buf, n), l'))
  unfolding drain_socket
  drain_socket-nothing fuel soc buf n m l (inl r) = (received soc none ∷ l, refl, ground arith)
  drain_socket-nothing fuel soc buf n m l (inr r) =
      (received soc (some []) ∷ l, append-nil (read_off l), ground arith)

  drain_block-Gathers :
      (fuel b : ℕ) (buf got : Bytes) (maxlen : ℕ) (l l' : Log)
      → handed_out l' ≡ handed_out l ++ got
      → IfReturns
          (Gathers handed_out [] buf l)
          (drain_block e fuel b (filled buf got) (length got) maxlen l')
  drain_block-Gathers fuel b buf got zero l l' h =
      rw (drain_block-full e fuel b (filled buf got) (length got) l') (got, h, refl, refl)
  drain_block-Gathers zero b buf got (suc m) l l' h =
      rw (drain_block-starved b (filled buf got) (length got) m l') tt
  drain_block-Gathers (suc fuel) b buf got (suc m) l l' h =
      elim (Option-cases (e.kcp.recv l' b (suc m))) [
        | inl r ↦
            rw (drain_block-end e fuel b (filled buf got) (length got) (suc m) l' (omega arith) r)
              (got, h, refl, refl)
        | inr (bs, r) ↦
            rw
              (drain_block-step e fuel b (filled buf got) (length got) (suc m) l' bs (omega arith)
                r)
              (write_bytes-filled (Gathers handed_out [] buf l) buf got bs
                (λ buf' n. drain_block e fuel b buf' n (suc m - length bs))
                (kcp_received b (some bs) ∷ l')
                (drain_block-Gathers fuel b buf (got ++ bs) (suc m - length bs) l
                  (kcp_received b (some bs) ∷ l')
                  ((more (handed_out l') (handed_out l) [] got got bs h refl).0)))
      ]

  drain_socket-Gathers :
      (fuel : ℕ) (soc : Handle) (buf first all got : Bytes) (maxlen : ℕ) (l l' : Log)
      → read_off l' ≡ read_off l ++ got
      → all ≡ first ++ got
      → IfReturns
          (Gathers read_off first buf l)
          (drain_socket e fuel soc (filled buf all) (length all) maxlen l')
  drain_socket-Gathers fuel soc buf first all got zero l l' h k =
      rw (drain_socket-full e fuel soc (filled buf all) (length all) l')
        (got, h, ap (filled buf) k, ap length k)
  drain_socket-Gathers zero soc buf first all got (suc m) l l' h k =
      rw (drain_socket-starved soc (filled buf all) (length all) m l') tt
  drain_socket-Gathers (suc fuel) soc buf first all got (suc m) l l' h k =
      elim (Bytes-cases (e.os.recv l' soc (suc m))) [
        | inl r ↦
            let (l'', same, ends) =
              drain_socket-nothing fuel soc (filled buf all) (length all) m l' r in
            rw ends (got, same ∙ h, ap (filled buf) k, ap length k)
        | inr (x, xs, r) ↦
            rw
              (drain_socket-step e fuel soc (filled buf all) (length all) (suc m) l' x xs
                (omega arith) r)
              (write_bytes-filled (Gathers read_off first buf l) buf all (x ∷ xs)
                (λ buf' n. drain_socket e fuel soc buf' n (suc m - length (x ∷ xs)))
                (received soc (some (x ∷ xs)) ∷ l')
                (let (h', k') = more (read_off l') (read_off l) first all got (x ∷ xs) h k in
                  drain_socket-Gathers fuel soc buf first (all ++ (x ∷ xs)) (got ++ (x ∷ xs))
                    (suc m - length (x ∷ xs)) l (received soc (some (x ∷ xs)) ∷ l') h' k'))
      ]

  feed_socket-handed_out :
      (fuel b : ℕ) (soc : Handle) (l : Log)
      → IfReturns (λ r. handed_out r.1 ≡ handed_out l) (feed_socket e fuel b soc l)
  unfolding feed_socket
  feed_socket-handed_out zero b soc l = tt
  feed_socket-handed_out (suc fuel) b soc l = elim (Bytes-cases (e.os.recv l soc max_udp_mtu)) [
    | inl r ↦ rw ((feed_socket-end e fuel b soc l r).1) refl
    | inr (x, xs, r) ↦ rw (feed_socket-more e fuel b soc l x xs r) (
        feed_socket-handed_out fuel b soc (kcp_input b (x ∷ xs) ∷ received soc (some (x ∷ xs)) ∷ l))
  ]

  input_first-handed_out :
      (b : ℕ) (o : Option Bytes) (l : Log)
      → IfReturns (λ r. handed_out r.1 ≡ handed_out l) (input_first b o l)
  unfolding input_first
  input_first-handed_out b none l = refl
  input_first-handed_out b (some []) l = refl
  input_first-handed_out b (some (x ∷ xs)) l = refl

  kcp_recv_with-holds :
      (block : Block) (soc : Handle) (input : Option Bytes) (buf : Bytes) (maxlen : ℕ) (l : Log)
      → IfReturns (Gathers handed_out [] buf l) (kcp_recv_with e block soc input buf maxlen l)
  unfolding kcp_recv_with
  kcp_recv_with-holds none soc input buf maxlen l =
      ([], sym (append-nil (handed_out l)), refl, refl)
  kcp_recv_with-holds (some b) soc input buf maxlen l =
      IfReturns-chain (λ r. handed_out r.1 ≡ handed_out l) (Gathers handed_out [] buf l)
        (input_first b input l) _ (input_first-handed_out b input l)
        λ _ l' h.
          IfReturns-chain (λ r. handed_out r.1 ≡ handed_out l') (Gathers handed_out [] buf l)
            (feed_socket e e.build.fuel b soc l') _ (feed_socket-handed_out e.build.fuel b soc l')
            λ _ l'' h'.
              drain_block-Gathers e.build.fuel b buf [] maxlen l l''
                (h' ∙ h ∙ sym (append-nil (handed_out l)))

-- With KCP, where finitely many datagrams and messages wait and the library keeps to the room it is
-- given, which is not larger than the buffer: reading returns, and then the buffer holds the messages
-- that the library handed out in the calls of this reading, one behind the other in the order of the
-- calls, and behind them what it held; the length that is returned is that of the messages, and at
-- most the room.
pub kcp_recv_with-Gathers :
    (e : Env) (quiet : Quiet e) (fits : KcpRecvFits e) (block : Block) (soc : Handle)
    (input : Option Bytes) (buf : Bytes) (maxlen : ℕ) (l : Log)
    → maxlen ≤ length buf
    → Returns
        (λ (r : (Bytes × ℕ) × Log). Gathers handed_out [] buf l r × (r.0.1 ≤ maxlen))
        (kcp_recv_with e block soc input buf maxlen l)
kcp_recv_with-Gathers e quiet fits block soc input buf maxlen l h =
    Returns-both (Read (length buf) 0 maxlen) (Gathers handed_out [] buf l) _
      (kcp_recv_with e block soc input buf maxlen l)
      (kcp_recv_with-Returns e quiet fits block soc input buf maxlen l h)
      (kcp_recv_with-holds e block soc input buf maxlen l) (λ r k g. (g, k.2))

-- The bytes that `Recv` is given.
abbrev pub given : Option Bytes → Bytes
given none = []
given (some bs) = bs

-- Without KCP, where `recv` keeps to the room it is given and the buffer has room for the input and
-- for that room behind it: reading returns, and then the buffer holds the input and behind it what
-- `recv` handed out in the calls of this reading, in their order, and behind that what it held; the
-- length that is returned is that of both, and at most that of the input and the room.
pub kcp_recv_without-Gathers :
    (e : Env) (fits : RecvFits e) (soc : Handle) (input : Option Bytes) (buf : Bytes) (maxlen : ℕ)
    (l : Log)
    → length (given input) + maxlen ≤ length buf
    → Returns
        (λ (r : (Bytes × ℕ) × Log).
          Gathers read_off (given input) buf l r × (r.0.1 ≤ length (given input) + maxlen))
        (kcp_recv_without e soc input buf maxlen l)
unfolding kcp_recv_without copy_first
kcp_recv_without-Gathers e fits soc input buf maxlen l h = go input h
  where
    drained :
        (first : Bytes)
        → length first + maxlen ≤ length buf
        → Returns
            (λ (r : (Bytes × ℕ) × Log).
              Gathers read_off first buf l r × (r.0.1 ≤ length first + maxlen))
            (drain_socket e maxlen soc (filled buf first) (length first) maxlen l)
    drained first k =
        Returns-both (Read (length buf) 0 (length first + maxlen)) (Gathers read_off first buf l) _
          (drain_socket e maxlen soc (filled buf first) (length first) maxlen l)
          (drain_socket-Returns e fits (length buf) 0 (length first + maxlen) maxlen soc
            (filled buf first) (length first) maxlen l (omega arith)
            (length-filled buf first (omega arith)) (omega arith) (omega arith) k)
          (drain_socket-Gathers e maxlen soc buf first first [] maxlen l l
            (sym (append-nil (read_off l))) (sym (append-nil first)))
          (λ r x g. (g, x.2))

    go :
        (o : Option Bytes)
        → length (given o) + maxlen ≤ length buf
        → Returns
            (λ (r : (Bytes × ℕ) × Log).
              Gathers read_off (given o) buf l r × (r.0.1 ≤ length (given o) + maxlen))
            (kcp_recv_without e soc o buf maxlen l)
    go none k = drained [] k
    go (some []) k = drained [] k
    go (some (x ∷ xs)) k = rw (write_bytes-first buf (x ∷ xs) l (omega arith)) (drained (x ∷ xs) k)
