-- ===== src/Server/Reading.antt =====
-- One reading of a client in service.
use udp_kcp_plugin.Base.{
  ℕ, ◌≡◌, ◌==◌, ==_iff, ◌∙◌, sym, ap, subst, some-injective, inl, inr, true, Option, some,
  Bool-cases,
}
use udp_kcp_plugin.Base.Assoc.{lookup, insert}
use udp_kcp_plugin.Base.Outcome.{out_of_bounds}
use udp_kcp_plugin.Base.Hoare.{Returns-ok, Returns-both}
use udp_kcp_plugin.System.{Bytes, Log, Env, KcpRecvFits}
use udp_kcp_plugin.Plug.Messages.{Quiet}
use udp_kcp_plugin.Plug.Silence.{AllAnswered}
use udp_kcp_plugin.Client.{Client, get_kcp_conv_id, client_recv}
use udp_kcp_plugin.Client.Ends.{Kept, client_recv-Ends}
use udp_kcp_plugin.Client.Replies.{client_recv-AllAnswered}
use udp_kcp_plugin.Server.{World, at_client}
use udp_kcp_plugin.Server.Session.{OnlyBuff, at_client-fault, stored-OnlyBuff}
use udp_kcp_plugin.Server.Welcome.{at_client-ok}
use udp_kcp_plugin.Server.Service.{
  Speaks, InService, Keeps, Served, Serves, Keeps-Entries, Speaks-kept,
}

module _ (e : Env) (In : ℕ → Type 0) (Kind : ℕ → Bytes → Type 0) where
  -- Where of the client at `p` only the buffer is new, and every message is answered.
  OnlyBuff-Served :
      (w v : World) (p : ℕ) (inside : In p) (s : InService e In Kind w)
      → OnlyBuff p ((s.speaks p inside).c) w v
      → AllAnswered Kind v.log
      → Served e In Kind w v
  unfolding get_kcp_conv_id
  OnlyBuff-Served w v p inside s k all = record {
    keeps = kept;
    service = record {
      entries = Keeps-Entries e In Kind w v kept s.entries;
      speaks = speaking;
      all_answered = all;
    };
  }
    where
      x : Speaks e In Kind w p
      x = s.speaks p inside

      kept : Keeps e In Kind w v
      kept = record {
        server_kept = k.server_kept;
        next_kept = k.next_kept;
        posts_kept = k.posts_kept;
        others_kept = λ q n. elim (Bool-cases (p == q)) [
          | inl t ↦ absurd (n (subst In ((==_iff p q).0 t) inside))
          | inr f ↦ k.others_kept q f
        ];
        clients_kept = λ q d h. elim (Bool-cases (p == q)) [
          | inl t ↦
              let at_p : p ≡ q = (==_iff p q).0 t in
              let same : x.c ≡ d =
                some-injective (x.c) d
                  (sym x.object ∙ subst (λ z. lookup z w.heap ≡ some d) (sym at_p) h) in
              (
                k.buff,
                subst (λ z. lookup z v.heap ≡ some (record d { buff = k.buff })) at_p
                    (k.object_kept ∙ ap (λ (z : Client). some (record z { buff = k.buff })) same),
              )
          | inr f ↦ (d.buff, k.others_kept q f ∙ h)
        ];
      }

      speaking : (q : ℕ) → In q → Speaks e In Kind v q
      speaking q y = elim (Bool-cases (p == q)) [
        | inl t ↦ subst (Speaks e In Kind v) ((==_iff p q).0 t) (record {
          c = record (x.c) { buff = k.buff };
          b = x.b;
          object = k.object_kept;
          past = x.past;
          block = x.block;
          room = record { full_size = k.full_size; at_start = x.room.at_start };
          kind = x.kind;
        })
        | inr f ↦ Speaks-kept e In Kind w v q (k.others_kept q f) (s.speaks q y)
      ]

  module _ (quiet : Quiet e) (fits : KcpRecvFits e) (on : e.build.with_kcp ≡ true) where
    -- One reading of one of them.
    pub at_client-Serves :
        (w : World) (p : ℕ) (input : Option Bytes)
        → In p
        → InService e In Kind w
        → Serves e In Kind w (at_client p (λ d. client_recv e d input) w)
    at_client-Serves w p input inside s =
        let x : Speaks e In Kind w p = s.speaks p inside in
        elim (client_recv-Ends e quiet fits x.c input w.log on x.past x.room) [
          | inl ends ↦
              let ((c', l), got, ((same, size), all)) =
                Returns-ok _ (client_recv e x.c input w.log) (
                  Returns-both (Kept x.c) (λ r. AllAnswered Kind r.1)
                    (λ (r : Client × Log). Kept x.c r × AllAnswered Kind r.1)
                    (client_recv e x.c input w.log) ends
                    (client_recv-AllAnswered e Kind quiet fits x.c x.b input w.log on x.past x.block
                      x.room x.kind s.all_answered)
                    (λ r k g. (k, g))) in
              inl (
                rw (at_client-ok w p x.c c' (λ d. client_recv e d input) l x.object got) (
                  OnlyBuff-Served w (record w { log = l; heap = insert p c' w.heap }) p inside s
                    (stored-OnlyBuff e w p x.c c' l same size) all))
          | inr (b', l, filled, f) ↦ inr (
            at_client-fault w p x.c (λ d. client_recv e d input) out_of_bounds x.object f,
            (p, inside, (x.c, x.object, (input, x.c.buff, w.log, b', l, filled))),
          )
        ]
