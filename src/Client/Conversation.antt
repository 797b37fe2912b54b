-- ===== src/Client/Conversation.antt =====
-- How `Recv` may change the conversation: as a session of the directory may.
use udp_kcp_plugin.Base.{
  ℕ, ◌%◌, ◌≡◌, ◌⊎◌, ◌∙◌, refl, sym, ap, subst, inl, inr, Bool, true, Bool-cases, Option, none, some,
  ◌==◌, ◌&&◌, is_set, arith, u32_mod, if◌then◌else◌,
}
use udp_kcp_plugin.Base.Outcome.{ok}
use udp_kcp_plugin.Base.Hoare.{
  IfReturns, IfReturns-chain, IfReturns-after, IfReturns-mono, IfReturns-if,
}
use udp_kcp_plugin.System.{Bytes, Log, Env}
use udp_kcp_plugin.Buffer.{u32_bytes}
use udp_kcp_plugin.Buffer.Laws.{length-u32_bytes, le_word-u32_bytes_mod}
use udp_kcp_plugin.Plug.{get_kcp_conv_id as conv_id_of, new_kcp_plug_control_block, use_kcp_plug}
use udp_kcp_plugin.Client.{
  Client, ClientType, accepted, connecting, get_kcp_conv_id, ensure_block, set_kcp_conv_id,
  offer_conv, take_conv, start_conv, check_kcp_plug, client_recv,
}
use udp_kcp_plugin.Client.Members.{SameButBuff, recv_data-SameButBuff}

-- A conversation that stands is kept. One that does not is taken from the identity where the peer
-- began, and may be any where this side began.
abbrev pub Converses : Client → ℕ → Type 0
Converses c conv =
    (conv ≡ c.conv_id)
    ⊎ ((c.conv_id ≡ 0)
        × (((c.kind ≡ some accepted) × (conv ≡ c.big_id % u32_mod)) ⊎ (c.kind ≡ some connecting)))

module _ (e : Env) where
  ensure_block-conv :
      (c : Client) (l : Log)
      → IfReturns (λ (r : Client × Log). r.0.conv_id ≡ c.conv_id) (ensure_block e c l)
  unfolding ensure_block
  ensure_block-conv c l =
      IfReturns-if (λ (r : Client × Log). r.0.conv_id ≡ c.conv_id) (is_set c.block) _ _ l refl
        (IfReturns-after (λ (r : Client × Log). r.0.conv_id ≡ c.conv_id)
          (new_kcp_plug_control_block e c.conv_id l) _ λ b l' _. refl)

  set_kcp_conv_id-conv :
      (c : Client) (id : ℕ) (l : Log)
      → IfReturns
          (λ (r : Client × Log). r.0.conv_id ≡ (if c.conv_id == 0 then id else c.conv_id))
          (set_kcp_conv_id e c id l)
  unfolding set_kcp_conv_id
  set_kcp_conv_id-conv c id l = elim (Bool-cases (c.conv_id == 0)) [
    | inl t ↦ simp t (ensure_block-conv (record c { conv_id = id }) l)
    | inr f ↦ simp f refl
  ]

  conv_id_of-word :
      (n : ℕ) (l : Log)
      → use_kcp_plug e ≡ true
      → conv_id_of e (some (u32_bytes n)) l ≡ ok (n % u32_mod, l)
  unfolding conv_id_of
  conv_id_of-word n l on = ground (arith, on, length-u32_bytes n, le_word-u32_bytes_mod n)

  abbrev Turned : Client → (Client × Bool) × Log → Type 0
  Turned c r = Converses c r.0.0.conv_id

  offer_conv-conv :
      (c : Client) (l : Log)
      → use_kcp_plug e ≡ true
      → IfReturns
          (λ (r : Client × Log).
            r.0.conv_id ≡ (if c.conv_id == 0 then c.big_id % u32_mod else c.conv_id))
          (offer_conv e c l)
  unfolding offer_conv
  offer_conv-conv c l on = rw (conv_id_of-word c.big_id l on) (
      IfReturns-chain
        (λ (r : Client × Log).
          r.0.conv_id ≡ (if c.conv_id == 0 then c.big_id % u32_mod else c.conv_id))
        (λ (r : Client × Log).
          r.0.conv_id ≡ (if c.conv_id == 0 then c.big_id % u32_mod else c.conv_id))
        (set_kcp_conv_id e c (c.big_id % u32_mod) l) _
        (set_kcp_conv_id-conv c (c.big_id % u32_mod) l) λ c' l' k. k)

  start_conv-conv :
      (k : Option ClientType) (c : Client) (input : Option Bytes) (l : Log)
      → use_kcp_plug e ≡ true
      → c.kind ≡ k
      → c.conv_id ≡ 0
      → IfReturns (Turned c) (start_conv e k c input l)
  unfolding start_conv
  start_conv-conv none c input l on h z = inl refl
  start_conv-conv (some accepted) c input l on h z =
      IfReturns-chain
        (λ (r : Client × Log).
          r.0.conv_id ≡ (if c.conv_id == 0 then c.big_id % u32_mod else c.conv_id))
        (Turned c) (offer_conv e c l) _ (offer_conv-conv c l on)
        λ c' l' x. inr (z, inl (h, x ∙ ground arith))
  start_conv-conv (some connecting) c input l on h z =
      IfReturns-after (Turned c) (take_conv e c input l) _ λ c' l' _. inr (z, inr h)

  check_kcp_plug-conv :
      (c : Client) (input : Option Bytes) (l : Log)
      → IfReturns (Turned c) (check_kcp_plug e c input l)
  unfolding check_kcp_plug get_kcp_conv_id
  check_kcp_plug-conv c input l = elim (Bool-cases (use_kcp_plug e && get_kcp_conv_id e c == 0)) [
    | inl t ↦ rw t (start_conv-conv c.kind c input l (ground arith) refl (ground arith))
    | inr f ↦ rw f (inl refl)
  ]

  -- Through any `Recv` that returns: a conversation that stands is kept, and one that does not may
  -- become the client's identity where the peer began, and anything where this side began.
  pub client_recv-Converses :
      (c : Client) (input : Option Bytes) (l : Log)
      → IfReturns (λ (r : Client × Log). Converses c r.0.conv_id) (client_recv e c input l)
  unfolding client_recv
  client_recv-Converses c input l =
      IfReturns-chain (Turned c) (λ (r : Client × Log). Converses c r.0.conv_id)
        (check_kcp_plug e c input l) _ (check_kcp_plug-conv c input l)
        λ r l' k.
          IfReturns-if (λ (r' : Client × Log). Converses c r'.0.conv_id) r.1 _ _ l' k
            (IfReturns-mono (SameButBuff r.0) (λ (r' : Client × Log). Converses c r'.0.conv_id) _
              (recv_data-SameButBuff e r.0 input l')
              λ r' h. subst (Converses c) (sym (ap (λ (d : Client). d.conv_id) h)) k)
