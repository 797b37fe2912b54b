-- ===== src/Client/Agreement.antt =====
-- The two sides of a handshake: they agree on the conversation, except that the identity 0 is never
-- taken for one.
use udp_kcp_plugin.Base.{
  ℕ, ◌≤◌, ◌<◌, ◌≡◌, refl, sym, ap, ◌∙◌, true, Option, some, List, [], ◌∷◌, ◌++◌, arith, u32_mod,
  length, replicate, replicate-append_cons,
}
use udp_kcp_plugin.Base.Outcome.{ok, Prog, pure, ◌>>=◌}
use udp_kcp_plugin.Base.Hoare.{Returns}
use udp_kcp_plugin.System.{Bytes, Log, Env, received, sent}
use udp_kcp_plugin.Buffer.{u32_bytes, le_word}
use udp_kcp_plugin.Buffer.Laws.{le_word-u32_bytes, length-u32_bytes}
use udp_kcp_plugin.Client.{
  Client, accepted, connecting, max_client_buff_len, client_recv, set_kcp_conv_id,
}
use udp_kcp_plugin.Client.Handshake.{
  IsNew, HasRoom, conv_id_of-u32_bytes, client_recv-accepted, connecting-ok, take_conv-short,
}

module _ (e : Env) (on : e.build.with_kcp ≡ true) where
  -- A client that connected reads an identity, and takes it for its conversation.
  pub client_recv-takes :
      (c : Client) (input : Option Bytes) (n b : ℕ) (l : Log)
      → e.build.is_linux ≡ true
      → n < u32_mod
      → IsNew c
      → HasRoom c
      → c.kind ≡ some connecting
      → e.os.recv l c.sock max_client_buff_len ≡ some (u32_bytes n)
      → e.kcp.create (received c.sock (some (u32_bytes n)) ∷ l) n ≡ some b
      → Returns (λ r. (r.0.conv_id ≡ n) × (r.0.block ≡ some b)) (client_recv e c input l)
  client_recv-takes c input n b l x h vc f kc r m =
      let word : le_word (u32_bytes n) ≡ n = le_word-u32_bytes n h in
      let short : length (u32_bytes n) ≤ 4 = omega (arith, length-u32_bytes n) in
      rw
        (connecting-ok e on c _ input l _ vc kc
          (take_conv-short e on c input (u32_bytes n) b l x vc f r short (rw word m)))
        (word, refl)

  -- With KCP on and on Linux, for an accepted client whose identity has 32 bits and a client that
  -- connected and has an empty buffer, both without a conversation and a block, and where the library
  -- has a block for each: when the one that connected reads the datagram that the accepted one sent in
  -- its handshake, both are left with the accepted client's identity for their conversation and each
  -- with the block that it got.
  pub client_recv-agree :
      (a a' c : Client) (input input' : Option Bytes) (bs : Bytes) (b b' : ℕ) (l la lc : Log)
      → e.build.is_linux ≡ true
      → IsNew a
      → a.kind ≡ some accepted
      → a.big_id < u32_mod
      → e.kcp.create l a.big_id ≡ some b
      → client_recv e a input l ≡ ok (a', sent a.sock bs ∷ la)
      → IsNew c
      → HasRoom c
      → c.kind ≡ some connecting
      → e.os.recv lc c.sock max_client_buff_len ≡ some bs
      → e.kcp.create (received c.sock (some bs) ∷ lc) a.big_id ≡ some b'
      → (a'.conv_id ≡ a.big_id)
        × (a'.block ≡ some b)
        × Returns
            (λ r. (r.0.conv_id ≡ a.big_id) × (r.0.block ≡ some b'))
            (client_recv e c input' lc)
  client_recv-agree a a' c input input' bs b b' l la lc x va ka h m run vc f kc r m' =
      let first = client_recv-accepted e on a input b l va ka h m in
      let both = sym first ∙ run in
      let same : bs ≡ u32_bytes a.big_id = cc both in
      let left : a' ≡ record a { conv_id = a.big_id; block = some b } = cc both in
      (
        ap (λ (z : Client). z.conv_id) left,
        ap (λ (z : Client). z.block) left,
        client_recv-takes c input' a.big_id b' lc x h vc f kc (rw same at r) (rw same at m'),
      )

  -- A run of `Recv`, one for each datagram that arrives.
  pub recv_all : Client → List (Option Bytes) → Prog Log Client
  recv_all c [] = pure c
  recv_all c (input ∷ inputs) = do c' ← client_recv e c input; recv_all c' inputs

  client_recv-zero :
      (c : Client) (input : Option Bytes) (b : ℕ) (l : Log)
      → c.kind ≡ some accepted
      → c.conv_id ≡ 0
      → c.big_id ≡ 0
      → c.block ≡ some b
      → client_recv e c input l ≡ ok (c, sent c.sock (u32_bytes 0) ∷ l)
  unfolding client_recv set_kcp_conv_id
  client_recv-zero c input b l k v i m = ground (arith, conv_id_of-u32_bytes e on c.big_id l)

  -- With KCP on, an accepted client whose identity is 0 and that has its block never leaves the
  -- handshake: whatever arrives, and however often, it answers each datagram with four zero bytes,
  -- drops it, and is left as it was.
  pub recv_all-zero :
      (c : Client) (inputs : List (Option Bytes)) (b : ℕ) (l : Log)
      → c.kind ≡ some accepted
      → c.conv_id ≡ 0
      → c.big_id ≡ 0
      → c.block ≡ some b
      → recv_all c inputs l ≡ ok (c, replicate (length inputs) (sent c.sock (u32_bytes 0)) ++ l)
  unfolding recv_all
  recv_all-zero c [] b l k v i m = refl
  recv_all-zero c (input ∷ inputs) b l k v i m = rw (client_recv-zero c input b l k v i m) (
      rw (recv_all-zero c inputs b (sent c.sock (u32_bytes 0) ∷ l) k v i m, replicate-append_cons)
        refl)
