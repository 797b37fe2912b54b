-- ===== src/Server/Finishes.antt =====
-- The whole program on Linux comes to its end.
use udp_kcp_plugin.Base.{
  ℕ, ◌≡◌, ◌⊎◌, refl, ap, inl, inr, none, Option, true, List, [], arith, Bool, Bool-cases, is_set,
  ◌∙◌, subst,
}
use udp_kcp_plugin.Base.Assoc.{lookup}
use udp_kcp_plugin.Base.Outcome.{Outcome, ok, fault, out_of_bounds, chain, Prog}
use udp_kcp_plugin.Base.Hoare.{Returns, Returns-ok, Returns-map}
use udp_kcp_plugin.Base.Tame.{Safe}
use udp_kcp_plugin.System.{Bytes, Log, Handle, Env, KcpRecvFits}
use udp_kcp_plugin.Clock.{TimeOfDay}
use udp_kcp_plugin.NetUnit.{set_handle}
use udp_kcp_plugin.Socket.{prepare}
use udp_kcp_plugin.Dispatch.{attach_handle_to_dispatch, ctl_event, init}
use udp_kcp_plugin.Client.{Client}
use udp_kcp_plugin.Plug.Messages.{Quiet}
use udp_kcp_plugin.Plug.Silence.{AllAnswered}
use udp_kcp_plugin.Server.{Server, World, set_server, ctl_udp_event, get_handle}
use udp_kcp_plugin.Server.Life.{new_server, server_destroy, new_members}
use udp_kcp_plugin.Server.Run.{try_listen, start_listen, set_run}
use udp_kcp_plugin.Server.Listen.{Listens, try_listen-Safe}
use udp_kcp_plugin.Server.Session.{Fills}
use udp_kcp_plugin.Server.Free.{Destroyed, Destroyed-none, server_destroy-Returns}
use udp_kcp_plugin.Server.Rounds.{serve}
use udp_kcp_plugin.Server.Program.{born, make_server, leave, listen_and_serve, main}
use udp_kcp_plugin.Server.Hosting.{Hosts, Hosted, Welcomes, Hosted-Hosts}
use udp_kcp_plugin.Server.Whole.{IsWhole, Evolves-IsWhole, born-IsWhole, Listens-IsWhole}
use udp_kcp_plugin.Server.Hosts.{Follows, serve-Hosting}

module _ (e : Env) (Kind : ℕ → Bytes → Type 0) where
  make_server-Returns :
      (wsa : Option (ℕ × ℕ)) (garbage : Handle) (l : Log)
      → e.build.is_linux ≡ true
      → AllAnswered Kind l
      → Returns
          (λ (r : Server × Log). (r.0.clients ≡ []) × AllAnswered Kind r.1)
          (make_server e wsa garbage l)
  unfolding make_server new_server new_members init
  make_server-Returns wsa garbage l lin all =
      simp lin (elim (Bool-cases (is_set (e.os.open_dispatch l))) [
        | inl t ↦ simp t (refl, all)
        | inr f ↦ simp f (refl, all)
      ])

  try_listen-Returns :
      (w : World)
      → e.build.is_linux ≡ true
      → AllAnswered Kind w.log
      → Returns (λ (r : Bool × World). AllAnswered Kind r.1.log) (try_listen e w)
  unfolding try_listen start_listen prepare set_handle set_server set_run ctl_udp_event get_handle
      attach_handle_to_dispatch ctl_event
  try_listen-Returns w lin all = ground (arith, lin, all)

  -- The state is whole, and every client of the map is in service.
  record Lives (w : World) : Type 0 where
    pub hosts : Hosts e Kind w
    pub whole : IsWhole w

  -- The program's server runs and all its clients are in service, or it is gone with all that it held.
  abbrev pub Finished : Unit {0} × World → Type 0
  Finished r =
      ((r.1.server.running ≡ true) × IsWhole r.1 × Hosts e Kind r.1)
      ⊎ ((r.1.server.clients ≡ [])
          × ((q : ℕ) → lookup q r.1.heap ≡ none)
          × (r.1.server.dispatch ≡ none)
          × (r.1.server.sock ≡ none))

  -- A part of the program returns, or a reading fills a buffer and the zero behind it is written past
  -- its end.
  abbrev pub Comes : (Unit {0} × World → Type 0) → Outcome (Unit {0} × World) → Type 0
  Comes P r = Returns P r ⊎ ((r ≡ fault out_of_bounds) × ((d : Client) × Fills e d))

  listened-Lives :
      (s : Server) (l : Log) (b : Bool) (v : World)
      → s.clients ≡ []
      → Listens (born s l) (b, v)
      → AllAnswered Kind v.log
      → Lives v
  listened-Lives s l b v none_yet h all =
      let whole : IsWhole v = Listens-IsWhole (born s l) b v (born-IsWhole s l none_yet) h in
      let (u, k, is) = h in
      let empty : v.server.clients ≡ [] = rw is (k.clients_kept ∙ none_yet) in
      record {
        hosts = record {
          sound = whole.sound;
          service = record {
            entries = whole.sound.entries;
            speaks = λ q (id, x). absurd (unfold lookup in ground (arith, empty, x));
            all_answered = all;
          };
        };
        whole = whole;
      }

  leave-finishes : (w : World) → e.build.is_linux ≡ true → Lives w → Returns Finished (leave e w)
  unfolding leave
  leave-finishes w lin s = elim (Bool-cases w.server.running) [
    | inl runs ↦ simp runs (inl (refl, s.whole, s.hosts))
    | inr stopped ↦
        simp (stopped, lin)
          (Returns-map (Destroyed w) Finished (server_destroy e w)
            (server_destroy-Returns e w s.hosts.sound).0
            (λ r d. inr (d.0.1, (λ q. Destroyed-none w r q s.whole.owned d), d.1, d.2)))
  ]

  Comes-then :
      (r : Outcome (Unit {0} × World)) (k : Prog World (Unit {0}))
      → Comes (λ (r' : Unit {0} × World). Lives r'.1) r
      → ((v : World) → Lives v → Returns Finished (k v))
      → Comes Finished (chain r (λ _. k))
  Comes-then (ok (u, v)) k (inl h) f = inl (f v h)
  Comes-then (ok (u, v)) k (inr h) f = absurd (cc)
  Comes-then (fault x) k (inl h) f = absurd h
  Comes-then (fault x) k (inr (h, fills)) f = inr (ground (arith, h), fills)

  module _ (quiet : Quiet e) (fits : KcpRecvFits e) (on : e.build.with_kcp ≡ true) where
    serve-Lives :
        (w : World) (ts : List TimeOfDay)
        → e.build.is_linux ≡ true
        → Follows e w ts
        → Welcomes e Kind w.server
        → Lives w
        → Comes (λ (r : Unit {0} × World). Lives r.1) (serve e ts w)
    serve-Lives w ts lin f k s = elim (serve-Hosting e quiet fits on Kind w ts lin f k s.hosts) [
      | inl x ↦ inl (
          Returns-map (λ (r : Unit {0} × World). Hosted e Kind w r.1)
            (λ (r : Unit {0} × World). Lives r.1) (serve e ts w) x
            (λ r y. record {
              hosts = Hosted-Hosts e Kind w r.1 y;
              whole = Evolves-IsWhole w r.1 s.whole y.evolves;
            }))
      | inr x ↦ inr x
    ]

    listen_and_serve-Lives :
        (s : Server) (l : Log) (ts : List TimeOfDay)
        → e.build.is_linux ≡ true
        → s.clients ≡ []
        → AllAnswered Kind l
        → ((v : World)
            → try_listen e (born s l) ≡ ok (true, v)
            → Follows e v ts × Welcomes e Kind v.server)
        → Comes (λ (r : Unit {0} × World). Lives r.1) (listen_and_serve e ts (born s l))
    unfolding listen_and_serve
    listen_and_serve-Lives s l ts lin none_yet all h =
        let ((b, v), got, all') =
          Returns-ok (λ (r : Bool × World). AllAnswered Kind r.1.log) (try_listen e (born s l))
            (try_listen-Returns (born s l) lin all) in
        let listens : Safe (Listens (born s l)) (ok (b, v)) =
          subst (Safe (Listens (born s l))) got (try_listen-Safe e (born s l)) in
        let now : Lives v = listened-Lives s l b v none_yet listens all' in
        rw got (elim (Bool-cases b) [
          | inl t ↦
              simp t
                (let (f, k) = h v (got ∙ ap (λ b'. ok (b', v)) t) in serve-Lives v ts lin f k now)
          | inr f ↦ simp f (inl now)
        ])

    -- On Linux with KCP on, where finitely many datagrams and messages wait and the library keeps
    -- to the room it is given, whatever the dispatcher held before; and where by the log that it
    -- starts with no block has handed out bytes since it was last given something to send. Where,
    -- if the server comes to listen, the dispatcher reports in every round that is run no unit but
    -- the server and clients that are then in its map, and every peer that the server's socket has
    -- a datagram of has an identity other than 0, no call for a socket of its own fails, and the
    -- library has a block for it that may be given that identity's decimal text. Then the whole
    -- program, given the clock for any finite number of rounds, comes to where these rounds lead
    -- it, over the constructor, `TryListen`, the loop and, once the server does not run, the
    -- destructor: either its server runs, the map and the heap agree, every object that is
    -- allocated is the entry of its identity, every client of the map was begun by its peer, has
    -- the identity of its address, has that identity for its conversation, is past its handshake
    -- and has a block and an empty buffer, and no block has handed out bytes since it was last
    -- given something to send; or the map is empty, no object is allocated, and the server has
    -- neither a dispatcher nor a socket left. Unless a reading fills the buffer of a client. The
    -- bug: then it writes past the end.
    pub main-finishes :
        (wsa : Option (ℕ × ℕ)) (garbage : Handle) (ts : List TimeOfDay) (l : Log)
        → e.build.is_linux ≡ true
        → AllAnswered Kind l
        → ((s : Server) (l' : Log) (v : World)
            → make_server e wsa garbage l ≡ ok (s, l')
            → try_listen e (born s l') ≡ ok (true, v)
            → Follows e v ts × Welcomes e Kind v.server)
        → Comes Finished (main e wsa garbage ts l)
    unfolding main
    main-finishes wsa garbage ts l lin all h =
        let ((s, l'), made, (none_yet, all')) =
          Returns-ok (λ (r : Server × Log). (r.0.clients ≡ []) × AllAnswered Kind r.1)
            (make_server e wsa garbage l) (make_server-Returns wsa garbage l lin all) in
        rw (made, main)
          (Comes-then (listen_and_serve e ts (born s l')) (leave e)
            (listen_and_serve-Lives s l' ts lin none_yet all' (λ v. h s l' v made))
            (λ v s'. leave-finishes v lin s'))
