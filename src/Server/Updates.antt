-- ===== src/Server/Updates.antt =====
-- `UpdateClient` returns, and leaves all but the log as it was.
use udp_kcp_plugin.Base.{ℕ, ◌≡◌, refl, arith, Bool-cases, inl, inr, none, some, List, [], ◌∷◌}
use udp_kcp_plugin.Base.Assoc.{lookup}
use udp_kcp_plugin.Base.Outcome.{ok}
use udp_kcp_plugin.Base.Hoare.{Returns, Returns-ok, Returns-map}
use udp_kcp_plugin.System.{Bytes, Log, Env, sent, kcp_updated}
use udp_kcp_plugin.Plug.{Block, kcp_update, output_all, use_kcp_plug}
use udp_kcp_plugin.Plug.Silence.{AllAnswered}
use udp_kcp_plugin.Client.{Client, output_callback, update}
use udp_kcp_plugin.Server.{World, lift, load}
use udp_kcp_plugin.Server.Sound.{Entries}
use udp_kcp_plugin.Server.Run.{update_client}

-- Only the log is new, and by calls after which no block owes an answer if none did before.
abbrev pub LogOnly : (ℕ → Bytes → Type 0) → World → World → Type 0
LogOnly Kind w v =
    (v ≡ record w { log = v.log }) × (AllAnswered Kind w.log → AllAnswered Kind v.log)

module _ (e : Env) (Kind : ℕ → Bytes → Type 0) where
  -- The library has handed out nothing, and was given nothing to send.
  abbrev NoWords : Log → Log → Type 0
  NoWords l l' = AllAnswered Kind l → AllAnswered Kind l'

  output_all-Returns :
      (c : Client) (ps : List Bytes) (l : Log)
      → Returns (λ r. NoWords l r.1) (output_all (output_callback e (some c)) ps l)
  unfolding output_all output_callback
  output_all-Returns c [] l = (λ x. x)
  output_all-Returns c (p ∷ ps) l = output_all-Returns c ps (sent c.sock p ∷ l)

  update-Returns :
      (c : Client) (now : ℕ) (l : Log) → Returns (λ r. NoWords l r.1) (update e c now l)
  unfolding update kcp_update
  update-Returns c now l = go c.block
    where
      go :
          (b : Block)
          → Returns (λ r. NoWords l r.1) (kcp_update e b (output_callback e (some c)) now l)
      go none = (λ x. x)
      go (some b) = elim (Bool-cases (use_kcp_plug e)) [
        | inl t ↦ rw t (output_all-Returns c (e.kcp.update l b now) (kcp_updated b now ∷ l))
        | inr f ↦ rw f (λ x. x)
      ]

  update_client-step :
      (dlt : ℕ) (w : World) (id p : ℕ) (m : List (ℕ × ℕ)) (c : Client) (u : Unit {0}) (l : Log)
      → lookup p w.heap ≡ some c
      → update e c dlt w.log ≡ ok (u, l)
      → update_client e dlt ((id, p) ∷ m) w ≡ update_client e dlt m (record w { log = l })
  unfolding update_client load lift
  update_client-step dlt w id p m c u l live got = ground (arith, live, got)

  pub update_client-Returns :
      (dlt : ℕ) (w : World) (m : List (ℕ × ℕ))
      → Entries w.heap m
      → Returns (λ (r : Unit {0} × World). LogOnly Kind w r.1) (update_client e dlt m w)
  unfolding update_client
  update_client-Returns dlt w [] h = (refl, λ x. x)
  update_client-Returns dlt w ((id, p) ∷ m) ((c, live, _), hs) =
      let ((u, l), got, h) =
        Returns-ok (λ r. NoWords w.log r.1) (update e c dlt w.log) (update-Returns c dlt w.log) in
      let v : World = record w { log = l } in
      rw (update_client-step dlt w id p m c u l live got) (
        Returns-map (λ (r : Unit {0} × World). LogOnly Kind v r.1)
          (λ (r : Unit {0} × World). LogOnly Kind w r.1) (update_client e dlt m v)
          (update_client-Returns dlt v m hs) (λ r (same, h'). (same, λ x. h' (h x))))
