-- ===== src/Server/Program.antt =====
-- The whole program, `main` of wheel/test/test.cpp: a server is made, listens, goes its rounds and is
-- destroyed.
use udp_kcp_plugin.Base.{ℕ, Option, List, [], ◌∷◌, if◌then◌else◌}
use udp_kcp_plugin.Base.Outcome.{Outcome, ok, fault, Prog, pure, ◌>>=◌, ◌>>◌}
use udp_kcp_plugin.System.{Bytes, Handle, Log, Env}
use udp_kcp_plugin.Clock.{TimeOfDay}
use udp_kcp_plugin.Server.{Server, World, is_run, get}
use udp_kcp_plugin.Server.Life.{
  new_server, new_server_windows, server_destroy, server_destroy_windows,
}
use udp_kcp_plugin.Server.Run.{try_listen}
use udp_kcp_plugin.Server.Rounds.{serve}

-- `"0.0.0.0"` and the port that the server is made with.
abbrev pub any_text : Bytes
any_text = 48 ∷ 46 ∷ 48 ∷ 46 ∷ 48 ∷ 46 ∷ 48 ∷ []

abbrev pub main_port : ℕ
main_port = 60000

-- A new server, before there is any client.
abbrev pub born : Server → Log → World
born s l = record {
  log = l;
  heap = [];
  next = 1;
  posts = record { infos = []; next = 0 };
  server = s;
}

module _ (e : Env) where
  open e use {build}

  -- `UDPServer stServer("0.0.0.0", 60000)`, by the system; `WSAStartup` answers on Windows.
  unfoldable pub make_server : Option (ℕ × ℕ) → Handle → Prog Log Server
  unfolding new_server new_server_windows
  make_server wsa garbage =
      if build.is_linux
      then new_server e any_text main_port garbage
      else new_server_windows e wsa any_text main_port garbage

  -- The end of the scope of `stServer`, which the program reaches once the server does not run.
  unfoldable pub leave : Prog World (Unit {0})
  unfolding get server_destroy server_destroy_windows
  leave = do
    w ← get
    (if is_run w.server
        then pure tt
        else if build.is_linux
        then server_destroy e
        else server_destroy_windows e)

  unfoldable pub listen_and_serve : List TimeOfDay → Prog World (Unit {0})
  unfolding try_listen serve
  listen_and_serve ts = do listens ← try_listen e; (if listens then serve e ts else pure tt)

  -- For the readings of the clock that are given; where they end before the loop does, it is left as
  -- it stands.
  unfoldable pub main : Option (ℕ × ℕ) → Handle → List TimeOfDay → Log → Outcome (Unit {0} × World)
  unfolding make_server listen_and_serve leave
  main wsa garbage ts l = elim (make_server wsa garbage l) [
    | ok (s, l') ↦ (listen_and_serve ts >> leave) (born s l')
    | fault f ↦ fault f
  ]
