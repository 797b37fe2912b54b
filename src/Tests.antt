-- ===== src/Tests.antt =====
-- Concrete systems and objects that the examples of the children run on.
mod Units
mod Plugs
mod Clients
mod Servers
mod Services
mod Joining
mod Growing
mod Starting
mod Loops
mod Directories
mod Piles
use udp_kcp_plugin.Base.{
  some-injective, subst, refl, ℕ, ◌<◌, Bool, true, false, Option, none, some, [], ◌∷◌, ◌==◌, ℤ, pos,
  if◌then◌else◌, length, take, length-take, ap, ◌≡◌, ◌≤◌, arith, suc, zero, List, replicate,
}
use udp_kcp_plugin.Server.Loop.{AllReady}
use udp_kcp_plugin.Server.Rounds.{Reports}
use udp_kcp_plugin.System.{Bytes, Addr, Handle, Log, Ready, Os, Kcp, Build, Env, server}
use udp_kcp_plugin.Client.{Client, ClientType, accepted, new_client}
use udp_kcp_plugin.Base.Assoc.{lookup}
use udp_kcp_plugin.Server.{Server, World}
use udp_kcp_plugin.Server.Sound.{IsSound}

-- 127.0.0.1, port 8080, as they travel.
abbrev pub peer : Addr
peer = record { ip = 16777343; port = 36895 }

abbrev pub hello : Bytes
hello = 104 ∷ 105 ∷ []

pub take-fits : {A : Type 0} (n : ℕ) (xs rs : List A) → some (take n xs) ≡ some rs → length rs ≤ n
take-fits {A} n xs rs h = omega (
  arith,
  length-take n xs,
  ap {B = ℕ} (λ (o : Option (List A)). elim o [ none ↦ 0 | some ys ↦ length ys ]) h,
)

abbrev pub answer : Log → ℕ → ℕ → Bytes → Option Bytes
answer l n turn bs = if length l == turn then some (take n bs) else none

abbrev pub datagram : Log → ℕ → Option (Bytes × Addr)
datagram l n = if length l == 1 then some (take n hello, peer) else none

-- Input waits at the server, for whoever has room for an event.
abbrev pub ready_now : ℕ → Option (List Ready)
ready_now zero = none
ready_now (suc n) = some (
    record { has_err = false; has_hup = false; has_in = true; has_out = false; userdata = server }
    ∷ [])

pub ready_now-fits : (n : ℕ) (rs : List Ready) → ready_now n ≡ some rs → length rs ≤ n
ready_now-fits zero rs h = absurd (cc)
ready_now-fits (suc n) rs h =
    omega
      (arith, ap {B = ℕ} (λ (o : Option (List Ready)). elim o [ none ↦ 0 | some ys ↦ length ys ]) h)

-- A system on which `recv` has `bs` as its first call, and every other call succeeds; one datagram of a
-- peer waits at the server.
abbrev pub os_with : Bytes → Bool → Bool → Os
os_with bs binds attaches = record {
  open_socket = λ l. some 7;
  bind = λ l h a. binds;
  sock_name = λ l h. some peer;
  connect = λ l h a. true;
  send = λ l h xs. pos (length xs);
  recv = λ l h n. answer l n 0 bs;
  recv_from = λ l h n. datagram l n;
  open_dispatch = λ l. some 3;
  attach = λ l d h u. attaches;
  arm = λ l d h n u. true;
  post = λ l p h n. true;
  wait = λ l d n. ready_now n;
  completions = λ l d n. some [];
}

-- A library that gives every conversation a block, and has one message once three calls are done.
abbrev pub kcp_sample : Kcp
kcp_sample = record {
  create = λ l id. some id;
  send = λ l b bs. pos 0;
  recv = λ l b n. answer l n 3 hello;
  update = λ l b t. hello ∷ [];
}

abbrev pub env_with : Os → Bool → Env
env_with os kcp_on = record {
  os = os;
  kcp = kcp_sample;
  build = record { is_linux = true; with_kcp = kcp_on; fuel = 4 };
}

abbrev pub sample : Env
sample = env_with (os_with hello true true) true

abbrev pub sample_without : Env
sample_without = env_with (os_with hello true true) false

abbrev pub fresh_of : Option ClientType → Client
fresh_of k = record {
  sock = some 7;
  addr = peer;
  block = none;
  buff = replicate 512 0;
  buff_offset = 0;
  big_id = 77;
  conv_id = 0;
  kind = k;
}

-- A server that listens, with no client yet.
abbrev pub idle : World
idle = record {
  log = [];
  heap = [];
  next = 1;
  posts = record { infos = []; next = 0 };
  server = record {
    sock = some 5;
    dispatch = some 3;
    ip = [];
    port = 8080;
    running = true;
    events = [];
    clients = [];
  };
}

-- The same server with the client at address 1.
abbrev pub busy : World
busy = record idle {
  heap = (1, fresh_of (some accepted)) ∷ [];
  next = 2;
  server = record (idle.server) { clients = (77, 1) ∷ [] };
}

pub busy-IsSound : IsSound busy
unfolding lookup
busy-IsSound = record {
  fresh = (omega arith, tt);
  entries = ((fresh_of (some accepted), refl, refl), tt);
  distinct = (refl, tt);
}

-- A system on which datagrams are waiting at the server's own socket in every round.
abbrev pub knocked : Ready
knocked = record {
  has_err = false;
  has_hup = false;
  has_in = true;
  has_out = false;
  userdata = server;
}

abbrev pub knocking : Env
knocking =
    env_with
      (record (os_with hello true true) {
        wait = λ l d n. some (knocked ∷ []);
        recv_from = λ l h n. some (take n hello, peer);
      })
      true

pub knocking-Reports : (w : World) (dlt : ℕ) → Reports knocking w dlt
knocking-Reports w dlt =
    (λ on v rs got h. subst (AllReady v) (some-injective _ rs h) (tt, tt), λ off. absurd (cc))
