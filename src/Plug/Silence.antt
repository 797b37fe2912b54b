-- ===== src/Plug/Silence.antt =====
-- Reading hands the library nothing to send.
use udp_kcp_plugin.Base.{
  ℕ, zero, suc, ◌+◌, ◌-◌, ◌<◌, ◌≡◌, refl, ◌∙◌, Option, none, some, inl, inr, [], ◌∷◌, arith, length,
  leb, Bool-cases, Option-cases, List, ◌==◌, ◌≢◌, if◌then◌else◌, length-append,
}
use udp_kcp_plugin.Base.Outcome.{Prog, chain}
use udp_kcp_plugin.Base.Hoare.{IfReturns, IfReturns-chain, IfReturns-mono}
use udp_kcp_plugin.System.{Bytes, Handle, Log, Env, received, kcp_received, kcp_input, kcp_sent}
use udp_kcp_plugin.Buffer.{write_bytes}
use udp_kcp_plugin.Plug.{max_udp_mtu, input_first, feed_socket, drain_block, kcp_recv_with}
use udp_kcp_plugin.Plug.Messages.{
  feed_socket-end, feed_socket-more, drain_block-full, drain_block-end, drain_block-step,
}
use udp_kcp_plugin.Plug.Contents.{handed_out}
use udp_kcp_plugin.Plug.Socket.{Bytes-cases}
use udp_kcp_plugin.Plug.Gathering.{drain_block-starved}

-- How many bytes a block has handed out since it was last given something to send.
abbrev pub owed : ℕ → Log → ℕ
owed k [] = 0
owed k (kcp_received b (some bs) ∷ l) = if b == k then owed k l + length bs else owed k l
owed k (kcp_sent b bs ∷ l) = if b == k then 0 else owed k l
owed k (_ ∷ l) = owed k l

-- What the blocks were given to send, newest first.
abbrev pub said : Log → List (ℕ × Bytes)
said [] = []
said (kcp_sent b bs ∷ l) = (b, bs) ∷ said l
said (_ ∷ l) = said l

-- Whatever a block was given to send is of a kind, and was given when that block had handed out bytes
-- since the time before.
abbrev pub Timely : (ℕ → Bytes → Type 0) → Log → Type 0
Timely Kind [] = Unit {0}
Timely Kind (kcp_sent b bs ∷ l) = Kind b bs × (0 < owed b l) × Timely Kind l
Timely Kind (_ ∷ l) = Timely Kind l

-- The same, and no block has handed out bytes since it was last given something to send.
abbrev pub AllAnswered : (ℕ → Bytes → Type 0) → Log → Type 0
AllAnswered Kind l = ((k : ℕ) → owed k l ≡ 0) × Timely Kind l

module _ (Kind : ℕ → Bytes → Type 0) (b : ℕ) where
  -- No block was given anything to send, and what was handed out came from the one block.
  abbrev pub NothingSaid : Log → Log → Type 0
  NothingSaid l l' =
      (said l' ≡ said l)
      × (owed b l' + length (handed_out l) ≡ owed b l + length (handed_out l'))
      × ((k : ℕ) → k ≢ b → owed k l' ≡ owed k l)
      × (Timely Kind l → Timely Kind l')

  pub NothingSaid-refl : (l : Log) → NothingSaid l l
  NothingSaid-refl l = (refl, refl, (λ k n. refl), λ x. x)

  pub NothingSaid-trans : (k l m : Log) → NothingSaid k l → NothingSaid l m → NothingSaid k m
  NothingSaid-trans k l m (s, h, o, t) (s', h', o', t') =
      (s' ∙ s, omega arith, (λ j n. o' j n ∙ o j n), λ x. t' (t x))

  NothingSaid-received : (bs : Bytes) (l : Log) → NothingSaid l (kcp_received b (some bs) ∷ l)
  NothingSaid-received bs l =
      (refl, ground (arith, length-append (handed_out l) bs), (λ k n. ground arith), λ x. x)

  -- A computation in which that is so.
  abbrev pub Silent : {A : Type 0} → Prog Log A → Type 0
  Silent m = (l : Log) → IfReturns (λ r. NothingSaid l r.1) (m l)

  Silent-chain :
      {A B : Type 0} (m : Prog Log A) (k : A → Prog Log B) (l : Log)
      → IfReturns (λ r. NothingSaid l r.1) (m l)
      → ((a : A) → Silent (k a))
      → IfReturns (λ r. NothingSaid l r.1) (chain (m l) k)
  Silent-chain m k l h f =
      IfReturns-chain (λ r. NothingSaid l r.1) (λ r. NothingSaid l r.1) (m l) k h
        (λ a t s.
          IfReturns-mono (λ r. NothingSaid t r.1) (λ r. NothingSaid l r.1) (k a t) (f a t)
            (λ r x. NothingSaid-trans l t r.1 s x))

  write_bytes-Silent : (buf : Bytes) (off : ℕ) (bs : Bytes) → Silent (write_bytes buf off bs)
  unfolding write_bytes
  write_bytes-Silent buf off bs l = elim (Bool-cases (leb (off + length bs) (length buf))) [
    | inl t ↦ rw t (NothingSaid-refl l)
    | inr f ↦ rw f tt
  ]

  input_first-Silent : (o : Option Bytes) → Silent (input_first b o)
  unfolding input_first
  input_first-Silent none l = (NothingSaid-refl l)
  input_first-Silent (some []) l = (NothingSaid-refl l)
  input_first-Silent (some (x ∷ xs)) l = (NothingSaid-refl l)

module _ (e : Env) (Kind : ℕ → Bytes → Type 0) (b : ℕ) where
  feed_socket-Silent : (fuel : ℕ) (soc : Handle) → Silent Kind b (feed_socket e fuel b soc)
  unfolding feed_socket
  feed_socket-Silent zero soc l = tt
  feed_socket-Silent (suc fuel) soc l = elim (Bytes-cases (e.os.recv l soc max_udp_mtu)) [
    | inl r ↦ rw ((feed_socket-end e fuel b soc l r).1) (NothingSaid-refl Kind b l)
    | inr (x, xs, r) ↦
        rw (feed_socket-more e fuel b soc l x xs r)
          (feed_socket-Silent fuel soc (kcp_input b (x ∷ xs) ∷ received soc (some (x ∷ xs)) ∷ l))
  ]

  drain_block-Silent :
      (fuel : ℕ) (buf : Bytes) (n maxlen : ℕ) → Silent Kind b (drain_block e fuel b buf n maxlen)
  drain_block-Silent fuel buf n zero l =
      rw (drain_block-full e fuel b buf n l) (NothingSaid-refl Kind b l)
  drain_block-Silent zero buf n (suc m) l = rw (drain_block-starved e b buf n m l) tt
  drain_block-Silent (suc fuel) buf n (suc m) l = elim (Option-cases (e.kcp.recv l b (suc m))) [
    | inl r ↦
        rw (drain_block-end e fuel b buf n (suc m) l (omega arith) r) (NothingSaid-refl Kind b l)
    | inr (bs, r) ↦ rw (drain_block-step e fuel b buf n (suc m) l bs (omega arith) r) (
        let t : Log = kcp_received b (some bs) ∷ l in
        IfReturns-mono (λ r. NothingSaid Kind b t r.1) (λ r. NothingSaid Kind b l r.1) _
          (Silent-chain Kind b (write_bytes buf n bs) _ t (write_bytes-Silent Kind b buf n bs t)
            (λ buf'. drain_block-Silent fuel buf' (n + length bs) (suc m - length bs)))
          (λ r x. NothingSaid-trans Kind b l t r.1 (NothingSaid-received Kind b bs l) x))
  ]

  pub kcp_recv_with-Silent :
      (soc : Handle) (input : Option Bytes) (buf : Bytes) (maxlen : ℕ)
      → Silent Kind b (kcp_recv_with e (some b) soc input buf maxlen)
  unfolding kcp_recv_with
  kcp_recv_with-Silent soc input buf maxlen l =
      Silent-chain Kind b (input_first b input) _ l (input_first-Silent Kind b input l) (λ _ l'.
        Silent-chain Kind b (feed_socket e e.build.fuel b soc) _ l'
          (feed_socket-Silent e.build.fuel soc l')
          (λ _. drain_block-Silent e.build.fuel buf 0 maxlen))
