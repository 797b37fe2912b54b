-- ===== src/Server/Turns.antt =====
-- What a round of the server's loop leaves, on both systems.
use udp_kcp_plugin.Base.{ℕ, ◌≡◌, refl, ◌∙◌, some}
use udp_kcp_plugin.Base.Assoc.{lookup, Below}
use udp_kcp_plugin.System.{UnitRef, server, client}
use udp_kcp_plugin.Client.{Client}
use udp_kcp_plugin.Server.{World}
use udp_kcp_plugin.Directory.{Steps}
use udp_kcp_plugin.Directory.Laws.{Steps-trans}
use udp_kcp_plugin.Server.View.{view}
use udp_kcp_plugin.Server.Sound.{Owned, Steady, Steady-trans, IsSound, Evolves}
use udp_kcp_plugin.Server.Attach.{IsLive}

-- What a round leaves to the units that were there, and that the numbers of operations stay below the
-- next one.
pub record Turns (w v : World) : Type 0 where
  pub sound : IsSound v
  pub stays :
      (p : ℕ) (c : Client)
      → lookup p w.heap ≡ some c
      → (c' : Client) × (lookup p v.heap ≡ some c') × (c'.big_id ≡ c.big_id)
  pub keeps : (id p : ℕ) → lookup id w.server.clients ≡ some p → lookup id v.server.clients ≡ some p
  pub fresh_posts : Below v.posts.next v.posts.infos
  pub steady : Steady w.server v.server
  pub owned : Owned w.heap w.server.clients → Owned v.heap v.server.clients
  pub steps : Steps (view w) (view v)

pub Turns-trans : (u v w : World) → Turns u v → Turns v w → Turns u w
Turns-trans u v w h k = record {
  sound = k.sound;
  stays = λ p c e.
      let (c', e', i) = h.stays p c e in let (c'', e'', i') = k.stays p c' e' in (c'', e'', i' ∙ i);
  keeps = λ id p e. k.keeps id p (h.keeps id p e);
  fresh_posts = k.fresh_posts;
  steady = Steady-trans u.server v.server w.server h.steady k.steady;
  owned = λ o. k.owned (h.owned o);
  steps = Steps-trans (view u) (view v) (view w) h.steps k.steps;
}

pub Evolves-Turns : (w v : World) → Below w.posts.next w.posts.infos → Evolves w v → Turns w v
Evolves-Turns w v b h = record {
  sound = h.sound;
  stays = h.stays;
  keeps = h.keeps;
  fresh_posts = (h.more b).0;
  steady = h.steady;
  owned = h.owned;
  steps = h.steps;
}

pub IsLive-Turns : (w v : World) (u : UnitRef) → Turns w v → IsLive w u → IsLive v u
IsLive-Turns w v server h k = tt
IsLive-Turns w v (client p) h (c, e) = let (c', e', _) = h.stays p c e in (c', e')

pub Turns-refl : (w : World) → IsSound w → Below w.posts.next w.posts.infos → Turns w w
Turns-refl w s b = record {
  sound = s;
  stays = λ p c e. (c, e, refl);
  keeps = λ id p e. e;
  steady = (refl, refl, refl, refl);
  owned = λ o. o;
  steps = Steps.stays;
  fresh_posts = b;
}
