-- ===== src/Client/Replies.antt =====
-- A client in conversation answers through its own block what that block hands it.
use udp_kcp_plugin.Base.{
  ℕ, subst, sym, ==_iff, ◌+◌, ◌<◌, ◌≡◌, ◌∙◌, refl, ap, ◌≢◌, ◌∷◌, true, inl, inr, Option, some,
  arith, length, ltb, ◌==◌, Bool-cases, length-append,
}
use udp_kcp_plugin.Base.Hoare.{IfReturns}
use udp_kcp_plugin.System.{kcp_sent, Bytes, Log, Env, KcpRecvFits}
use udp_kcp_plugin.Plug.Messages.{Quiet}
use udp_kcp_plugin.Plug.Contents.{handed_out}
use udp_kcp_plugin.Plug.Silence.{owed, AllAnswered}
use udp_kcp_plugin.Client.Decimal.{decimal}
use udp_kcp_plugin.Client.{Client, max_client_buff_len, get_kcp_conv_id, client_recv}
use udp_kcp_plugin.Client.Handshake.{HasRoom}
use udp_kcp_plugin.Client.Answering.{Answers, client_recv-Answers}

module _ (e : Env) (Kind : ℕ → Bytes → Type 0) where
  still :
      (l : Log) (b : ℕ) → owed b l ≡ 0 → ((k : ℕ) → k ≢ b → owed k l ≡ 0) → (k : ℕ) → owed k l ≡ 0
  still l b h f k = elim (Bool-cases (k == b)) [
    | inl t ↦ subst (λ j. owed j l ≡ 0) (sym ((==_iff k b).0 t)) h
    | inr n ↦ f k (λ x. ground arith)
  ]

  paid :
      (b : ℕ) (bs : Bytes) (l : Log)
      → ((k : ℕ) → k ≢ b → owed k l ≡ 0)
      → (k : ℕ) → owed k (kcp_sent b bs ∷ l) ≡ 0
  paid b bs l f k = elim (Bool-cases (b == k)) [
    | inl t ↦ simp t refl
    | inr n ↦ simp n (f k (λ x. ground arith))
  ]

  Answers-AllAnswered :
      (c : Client) (b : ℕ) (input : Option Bytes) (l : Log)
      → Answers Kind e c b input l
      → Kind b (decimal c.big_id)
      → AllAnswered Kind l
      → IfReturns (λ r. AllAnswered Kind r.1) (client_recv e c input l)
  Answers-AllAnswered c b input l (got, l', h, (same, there, others, timely), most, ends) kind
        (level, before) =
      let size : length (handed_out l') ≡ length (handed_out l) + length got =
        ap length h ∙ length-append (handed_out l) got in
      let now : owed b l' ≡ length got = omega (arith, size, there, level b) in
      let beside : (k : ℕ) → k ≢ b → owed k l' ≡ 0 = λ k n. others k n ∙ level k in
      elim (Bool-cases (length got == 0)) [
        | inl t ↦ rw ends (simp t (still l' b (ground (arith, now, t)) beside, timely before))
        | inr f ↦
            let due : 0 < owed b l' = ground (arith, now, f) in
            elim (Bool-cases (ltb (length got) max_client_buff_len)) [
              | inl t ↦
                  rw ends
                    (simp (f, t) (paid b (decimal c.big_id) l' beside, (kind, due, timely before)))
              | inr g ↦ rw ends (simp (f, g) tt)
            ]
      ]

  -- A reading of a client in conversation that returns.
  pub client_recv-AllAnswered :
      (quiet : Quiet e) (fits : KcpRecvFits e) (c : Client) (b : ℕ) (input : Option Bytes) (l : Log)
      → e.build.with_kcp ≡ true
      → get_kcp_conv_id e c ≢ 0
      → c.block ≡ some b
      → HasRoom c
      → Kind b (decimal c.big_id)
      → AllAnswered Kind l
      → IfReturns (λ r. AllAnswered Kind r.1) (client_recv e c input l)
  client_recv-AllAnswered quiet fits c b input l on past k room kind all =
      Answers-AllAnswered c b input l
        (client_recv-Answers e quiet fits Kind c b input l on past k room) kind all
