-- ===== src/Dispatch/Laws.antt =====
-- What `epoll_wait` reports, as the server sees it.
use udp_kcp_plugin.Base.{
  ℕ, suc, ◌≤◌, ◌≡◌, refl, none, some, List, [], ◌∷◌, map, ltb, ◌||◌, ◌&&◌, not, arith, ap, ◌==◌,
  if◌then◌else◌, length, Option-cases, inl, inr, is_set,
}
use udp_kcp_plugin.Base.Outcome.{ok, ◌>>=◌}
use udp_kcp_plugin.Base.Hoare.{Returns}
use udp_kcp_plugin.System.{Handle, Ready, Log, Env, dispatch_closed}
use udp_kcp_plugin.Dispatch.{translate, un_init, max_req_per_time, dispatch_update, ene_read}

-- An event is a pure ENE_READ exactly where the system reports input and nothing else.
pub translate-read :
    (r : Ready)
    → ((translate r).evt == ene_read) ≡ (r.has_in && not (r.has_err || r.has_hup || r.has_out))
unfolding translate
translate-read r = ground arith

pub translate-userdata : (r : Ready) → (translate r).userdata ≡ r.userdata
unfolding translate
translate-userdata r = refl

length-map-translate : (rs : List Ready) → length (map translate rs) ≡ length rs
length-map-translate [] = refl
length-map-translate (r ∷ rs) = ap suc (length-map-translate rs)

-- Documented of `epoll_wait`: at most as many events as asked for.
pub record WaitFits (e : Env) : Type 0 where
  pub wait_fits :
      (l : Log) (d : Handle) (n : ℕ) (rs : List Ready) → e.os.wait l d n ≡ some rs → length rs ≤ n

-- Where `epoll_wait` reports at most what it was asked for, an update returns, whatever the system
-- answers, with entries for at most the room that the caller gave, and at most 1024.
pub dispatch_update-fits :
    (e : Env) (dispatch : Handle) (n_max_num : ℕ) (l : Log)
    → WaitFits e
    → Returns
        (λ r. (length r.0 ≤ n_max_num) × (length r.0 ≤ max_req_per_time))
        (dispatch_update e dispatch n_max_num l)
unfolding dispatch_update
dispatch_update-fits e dispatch n_max_num l fits =
    let n = if ltb max_req_per_time n_max_num then max_req_per_time else n_max_num in
    elim (Option-cases (e.os.wait l dispatch n)) [
      | inl h ↦ ground arith
      | inr (rs, h) ↦ ground (arith, fits.wait_fits l dispatch n rs h, length-map-translate rs)
    ]

-- Closing the dispatcher a second time closes nothing: `UnInit` runs in the server's destructor and
-- again in the dispatcher's own, and together they close the handle once, if there is one.
pub un_init-un_init :
    (d : Handle) (l : Log)
    → ((un_init d >>= un_init) l) ≡ ok (none, if is_set d then dispatch_closed d ∷ l else l)
unfolding un_init
un_init-un_init none l = refl
un_init-un_init (some d) l = refl
