-- ===== src/Plug/Messages.antt =====
-- Reading with KCP: both loops end once the system and the library have nothing left, and messages
-- stay inside the buffer.
use udp_kcp_plugin.Base.{
  ℕ, zero, suc, ◌+◌, ◌-◌, ◌≤◌, ◌<◌, ◌≡◌, refl, ◌∙◌, Option, none, some, ◌⊎◌, inl, inr, Option-cases,
  [], ◌∷◌, arith, length,
}
use udp_kcp_plugin.Base.Outcome.{ok, chain}
use udp_kcp_plugin.Base.Hoare.{Returns, Returns-chain}
use udp_kcp_plugin.System.{Bytes, Handle, Log, Env, KcpRecvFits, received, kcp_input, kcp_received}
use udp_kcp_plugin.Buffer.{write_bytes}
use udp_kcp_plugin.Buffer.Laws.{written, write_bytes-fits, length-written}
use udp_kcp_plugin.Plug.{
  Read, Block, max_udp_mtu, feed_socket, drain_block, input_first, kcp_recv_with,
}
use udp_kcp_plugin.Plug.Socket.{Bytes-cases}

-- What waits is finite: a datagram that is read, and a message that is taken, is one fewer, and the
-- rounds given to the loops are more than can wait.
pub record Quiet (e : Env) : Type 0 where
  pub waiting : Log → ℕ
  pub messages : Log → ℕ
  pub waiting_bounded : (l : Log) → waiting l < e.build.fuel
  pub messages_bounded : (l : Log) → messages l < e.build.fuel
  pub fed :
      (l : Log) (h : Handle) (n b x : ℕ) (xs : Bytes)
      → e.os.recv l h n ≡ some (x ∷ xs)
      → waiting (kcp_input b (x ∷ xs) ∷ received h (some (x ∷ xs)) ∷ l) < waiting l
  pub drained :
      (l : Log) (b n : ℕ) (bs : Bytes)
      → e.kcp.recv l b n ≡ some bs
      → messages (kcp_received b (some bs) ∷ l) < messages l

module _ (e : Env) where
  pub feed_socket-end :
      (fuel b : ℕ) (soc : Handle) (l : Log)
      → (e.os.recv l soc max_udp_mtu ≡ none) ⊎ (e.os.recv l soc max_udp_mtu ≡ some [])
      → (r : Option Bytes) × (feed_socket e (suc fuel) b soc l ≡ ok (tt, received soc r ∷ l))
  unfolding feed_socket
  feed_socket-end fuel b soc l (inl r) = (none, ground arith)
  feed_socket-end fuel b soc l (inr r) = (some [], ground arith)

  pub feed_socket-more :
      (fuel b : ℕ) (soc : Handle) (l : Log) (x : ℕ) (xs : Bytes)
      → e.os.recv l soc max_udp_mtu ≡ some (x ∷ xs)
      → feed_socket e (suc fuel) b soc l
        ≡ feed_socket e fuel b soc (kcp_input b (x ∷ xs) ∷ received soc (some (x ∷ xs)) ∷ l)
  unfolding feed_socket
  feed_socket-more fuel b soc l x xs r = ground arith

  pub drain_block-full :
      (fuel b : ℕ) (buf : Bytes) (curr_len : ℕ) (l : Log)
      → drain_block e fuel b buf curr_len 0 l ≡ ok ((buf, curr_len), l)
  unfolding drain_block
  drain_block-full zero b buf curr_len l = ground arith
  drain_block-full (suc fuel) b buf curr_len l = ground arith

  pub drain_block-end :
      (fuel b : ℕ) (buf : Bytes) (curr_len maxlen : ℕ) (l : Log)
      → 0 < maxlen
      → e.kcp.recv l b maxlen ≡ none
      → drain_block e (suc fuel) b buf curr_len maxlen l
        ≡ ok ((buf, curr_len), kcp_received b none ∷ l)
  unfolding drain_block
  drain_block-end fuel b buf curr_len maxlen l h r = ground arith

  pub drain_block-step :
      (fuel b : ℕ) (buf : Bytes) (curr_len maxlen : ℕ) (l : Log) (bs : Bytes)
      → 0 < maxlen
      → e.kcp.recv l b maxlen ≡ some bs
      → drain_block e (suc fuel) b buf curr_len maxlen l
        ≡ chain
            (write_bytes buf curr_len bs (kcp_received b (some bs) ∷ l))
            (λ buf'. drain_block e fuel b buf' (curr_len + length bs) (maxlen - length bs))
  unfolding drain_block
  drain_block-step fuel b buf curr_len maxlen l bs h r = ground arith

  drain_block-more :
      (fuel b : ℕ) (buf : Bytes) (curr_len maxlen : ℕ) (l : Log) (bs : Bytes)
      → 0 < maxlen
      → e.kcp.recv l b maxlen ≡ some bs
      → curr_len + length bs ≤ length buf
      → drain_block e (suc fuel) b buf curr_len maxlen l
        ≡ drain_block e fuel b
            (written buf curr_len bs)
            (curr_len + length bs)
            (maxlen - length bs)
            (kcp_received b (some bs) ∷ l)
  unfolding drain_block
  drain_block-more fuel b buf curr_len maxlen l bs h r k =
      ground (arith, write_bytes-fits buf curr_len bs (kcp_received b (some bs) ∷ l) k)

module _ (e : Env) (quiet : Quiet e) (fits : KcpRecvFits e) where
  feed_socket-Returns :
      (fuel b : ℕ) (soc : Handle) (l : Log)
      → quiet.waiting l < fuel
      → Returns (λ r. Unit {0}) (feed_socket e fuel b soc l)
  feed_socket-Returns zero b soc l h = absurd (omega arith)
  feed_socket-Returns (suc fuel) b soc l h = elim (Bytes-cases (e.os.recv l soc max_udp_mtu)) [
    | inl r ↦ rw ((feed_socket-end e fuel b soc l r).1) tt
    | inr (x, xs, r) ↦ rw (feed_socket-more e fuel b soc l x xs r) (
        feed_socket-Returns fuel b soc (kcp_input b (x ∷ xs) ∷ received soc (some (x ∷ xs)) ∷ l)
          (omega (arith, quiet.fed l soc max_udp_mtu b x xs r)))
  ]

  drain_block-Returns :
      (size low high fuel b : ℕ) (buf : Bytes) (curr_len maxlen : ℕ) (l : Log)
      → quiet.messages l < fuel
      → length buf ≡ size
      → low ≤ curr_len
      → curr_len + maxlen ≤ high
      → high ≤ size
      → Returns (Read size low high) (drain_block e fuel b buf curr_len maxlen l)
  drain_block-Returns size low high zero b buf curr_len maxlen l h s c k t = absurd (omega arith)
  drain_block-Returns size low high (suc fuel) b buf curr_len zero l h s c k t =
      rw (drain_block-full e (suc fuel) b buf curr_len l) (omega arith)
  drain_block-Returns size low high (suc fuel) b buf curr_len (suc m) l h s c k t =
      elim (Option-cases (e.kcp.recv l b (suc m))) [
        | inl r ↦ rw (drain_block-end e fuel b buf curr_len (suc m) l (omega arith) r) (omega arith)
        | inr (bs, r) ↦
            let fit = fits.kcp_recv_fits l b (suc m) bs r in
            rw (drain_block-more e fuel b buf curr_len (suc m) l bs (omega arith) r (omega arith)) (
              drain_block-Returns size low high fuel b (written buf curr_len bs)
                (curr_len + length bs) (suc m - length bs) (kcp_received b (some bs) ∷ l)
                (omega (arith, quiet.drained l b (suc m) bs r))
                (length-written buf curr_len bs (omega arith) ∙ s) (omega arith) (omega arith) t)
      ]

  input_first-Returns :
      (b : ℕ) (input : Option Bytes) (l : Log) → Returns (λ r. Unit {0}) (input_first b input l)
  unfolding input_first
  input_first-Returns b none l = tt
  input_first-Returns b (some []) l = tt
  input_first-Returns b (some (x ∷ xs)) l = tt

  -- With KCP, where finitely many datagrams and messages wait and the library keeps to the room it is
  -- given: reading ends without a fault, for every input and every answer, keeps the buffer's size
  -- and returns at most the room that was given, where this room is not larger than the buffer.
  pub kcp_recv_with-Returns :
      (block : Block) (soc : Handle) (input : Option Bytes) (buf : Bytes) (maxlen : ℕ) (l : Log)
      → maxlen ≤ length buf
      → Returns (Read (length buf) 0 maxlen) (kcp_recv_with e block soc input buf maxlen l)
  unfolding kcp_recv_with
  kcp_recv_with-Returns none soc input buf maxlen l h = omega arith
  kcp_recv_with-Returns (some b) soc input buf maxlen l h =
      Returns-chain (λ r. Unit {0}) (Read (length buf) 0 maxlen) (input_first b input l) _
        (input_first-Returns b input l)
        λ _ l' _.
          Returns-chain (λ r. Unit {0}) (Read (length buf) 0 maxlen)
            (feed_socket e e.build.fuel b soc l') _
            (feed_socket-Returns e.build.fuel b soc l' (quiet.waiting_bounded l'))
            λ _ l'' _.
              drain_block-Returns (length buf) 0 maxlen e.build.fuel b buf 0 maxlen l''
                (quiet.messages_bounded l'') refl (omega arith) (omega arith) h
