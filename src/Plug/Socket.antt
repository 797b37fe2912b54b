-- ===== src/Plug/Socket.antt =====
-- Reading without KCP: the loop over the socket ends, and stays inside the buffer exactly as long as
-- nothing was put there before.
use udp_kcp_plugin.Base.{
  ℕ, zero, suc, ◌+◌, ◌-◌, ◌≤◌, ◌<◌, ◌≡◌, refl, ◌∙◌, Option, none, some, ◌⊎◌, inl, inr, [], ◌∷◌,
  arith, length,
}
use udp_kcp_plugin.Base.Outcome.{ok, chain, fault, out_of_bounds}
use udp_kcp_plugin.Base.Hoare.{Returns}
use udp_kcp_plugin.System.{Bytes, Handle, Log, Env, RecvFits, received}
use udp_kcp_plugin.Buffer.{write_bytes}
use udp_kcp_plugin.Buffer.Laws.{written, write_bytes-fits, write_bytes-overflow, length-written}
use udp_kcp_plugin.Plug.{Read, drain_socket, copy_first, kcp_recv_without}

module _ (e : Env) where
  -- What the answer of `recv` is followed by.
  drain_socket-none :
      (fuel : ℕ) (soc : Handle) (buf : Bytes) (curr_len maxlen : ℕ) (l : Log)
      → 0 < maxlen
      → e.os.recv l soc maxlen ≡ none
      → drain_socket e (suc fuel) soc buf curr_len maxlen l
        ≡ ok ((buf, curr_len), received soc none ∷ l)
  unfolding drain_socket
  drain_socket-none fuel soc buf curr_len maxlen l h r = ground arith

  pub drain_socket-step :
      (fuel : ℕ) (soc : Handle) (buf : Bytes) (curr_len maxlen : ℕ) (l : Log) (x : ℕ) (xs : Bytes)
      → 0 < maxlen
      → e.os.recv l soc maxlen ≡ some (x ∷ xs)
      → drain_socket e (suc fuel) soc buf curr_len maxlen l
        ≡ chain (write_bytes buf curr_len (x ∷ xs) (received soc (some (x ∷ xs)) ∷ l)) (λ buf'.
          drain_socket e fuel soc buf' (curr_len + suc (length xs)) (maxlen - suc (length xs)))
  unfolding drain_socket
  drain_socket-step fuel soc buf curr_len maxlen l x xs h r = ground arith

  drain_socket-more :
      (fuel : ℕ) (soc : Handle) (buf : Bytes) (curr_len maxlen : ℕ) (l : Log) (x : ℕ) (xs : Bytes)
      → 0 < maxlen
      → e.os.recv l soc maxlen ≡ some (x ∷ xs)
      → curr_len + length (x ∷ xs) ≤ length buf
      → drain_socket e (suc fuel) soc buf curr_len maxlen l
        ≡ drain_socket e fuel soc
            (written buf curr_len (x ∷ xs))
            (curr_len + length (x ∷ xs))
            (maxlen - length (x ∷ xs))
            (received soc (some (x ∷ xs)) ∷ l)
  unfolding drain_socket
  drain_socket-more fuel soc buf curr_len maxlen l x xs h r k =
      ground (arith, write_bytes-fits buf curr_len (x ∷ xs) (received soc (some (x ∷ xs)) ∷ l) k)

  drain_socket-overflow :
      (fuel : ℕ) (soc : Handle) (buf : Bytes) (curr_len maxlen : ℕ) (l : Log) (x : ℕ) (xs : Bytes)
      → 0 < maxlen
      → e.os.recv l soc maxlen ≡ some (x ∷ xs)
      → length buf < curr_len + length (x ∷ xs)
      → drain_socket e (suc fuel) soc buf curr_len maxlen l ≡ fault out_of_bounds
  unfolding drain_socket
  drain_socket-overflow fuel soc buf curr_len maxlen l x xs h r k =
      ground
        (arith, write_bytes-overflow buf curr_len (x ∷ xs) (received soc (some (x ∷ xs)) ∷ l) k)

  pub drain_socket-end :
      (fuel : ℕ) (soc : Handle) (buf : Bytes) (curr_len maxlen : ℕ) (l : Log)
      → 0 < maxlen
      → (e.os.recv l soc maxlen ≡ none) ⊎ (e.os.recv l soc maxlen ≡ some [])
      → (r : Option Bytes) × (drain_socket e (suc fuel) soc buf curr_len maxlen l
          ≡ ok ((buf, curr_len), received soc r ∷ l))
  unfolding drain_socket
  drain_socket-end fuel soc buf curr_len maxlen l h (inl r) = (none, ground arith)
  drain_socket-end fuel soc buf curr_len maxlen l h (inr r) = (some [], ground arith)

  pub drain_socket-full :
      (fuel : ℕ) (soc : Handle) (buf : Bytes) (curr_len : ℕ) (l : Log)
      → drain_socket e fuel soc buf curr_len 0 l ≡ ok ((buf, curr_len), l)
  unfolding drain_socket
  drain_socket-full zero soc buf curr_len l = ground arith
  drain_socket-full (suc fuel) soc buf curr_len l = ground arith

pub Bytes-cases :
    (r : Option Bytes)
    → ((r ≡ none) ⊎ (r ≡ some [])) ⊎ ((x : ℕ) × (xs : Bytes) × (r ≡ some (x ∷ xs)))
Bytes-cases none = inl (inl refl)
Bytes-cases (some []) = inl (inr refl)
Bytes-cases (some (x ∷ xs)) = inr (x, xs, refl)

module _ (e : Env) (fits : RecvFits e) where
  -- With as many rounds as there is room, where the room lies inside the buffer.
  pub drain_socket-Returns :
      (size low high fuel : ℕ) (soc : Handle) (buf : Bytes) (curr_len maxlen : ℕ) (l : Log)
      → maxlen ≤ fuel
      → length buf ≡ size
      → low ≤ curr_len
      → curr_len + maxlen ≤ high
      → high ≤ size
      → Returns (Read size low high) (drain_socket e fuel soc buf curr_len maxlen l)
  drain_socket-Returns size low high fuel soc buf curr_len zero l h s c k t =
      rw (drain_socket-full e fuel soc buf curr_len l) (omega arith)
  drain_socket-Returns size low high zero soc buf curr_len (suc m) l h s c k t =
      absurd (omega arith)
  drain_socket-Returns size low high (suc fuel) soc buf curr_len (suc m) l h s c k t =
      elim (Bytes-cases (e.os.recv l soc (suc m))) [
        | inl r ↦
            rw ((drain_socket-end e fuel soc buf curr_len (suc m) l (omega arith) r).1)
              (omega arith)
        | inr (x, xs, r) ↦
            let fit = fits.recv_fits l soc (suc m) (x ∷ xs) r in
            rw
              (drain_socket-more e fuel soc buf curr_len (suc m) l x xs (omega arith) r
                (omega arith))
              (drain_socket-Returns size low high fuel soc (written buf curr_len (x ∷ xs))
                (curr_len + length (x ∷ xs)) (suc m - length (x ∷ xs))
                (received soc (some (x ∷ xs)) ∷ l) (omega arith)
                (length-written buf curr_len (x ∷ xs) (omega arith) ∙ s) (omega arith) (omega arith)
                t)
      ]

  -- Without KCP and with no input, where `recv` keeps to the room it is given: reading ends without
  -- a fault, however the system answers, keeps the buffer's size and returns at most the room that
  -- was given, where this room is not larger than the buffer.
  kcp_recv_without-Returns :
      (soc : Handle) (buf : Bytes) (maxlen : ℕ) (l : Log)
      → maxlen ≤ length buf
      → Returns (Read (length buf) 0 maxlen) (kcp_recv_without e soc none buf maxlen l)
  unfolding kcp_recv_without copy_first
  kcp_recv_without-Returns soc buf maxlen l h =
      drain_socket-Returns (length buf) 0 maxlen maxlen soc buf 0 maxlen l (omega arith) refl
        (omega arith) (omega arith) h

-- The bug: without KCP, an input that comes first does not shorten the room that the socket is then
-- read into, so an input and a first datagram that together are longer than the buffer are written
-- past its end, where the input alone fits.
pub kcp_recv_without-overflow :
    (e : Env) (soc : Handle) (buf : Bytes) (maxlen x y : ℕ) (xs ys : Bytes) (l : Log)
    → 0 < maxlen
    → length (x ∷ xs) ≤ length buf
    → e.os.recv l soc maxlen ≡ some (y ∷ ys)
    → length buf < length (x ∷ xs) + length (y ∷ ys)
    → kcp_recv_without e soc (some (x ∷ xs)) buf maxlen l ≡ fault out_of_bounds
unfolding kcp_recv_without copy_first
kcp_recv_without-overflow e soc buf zero x y xs ys l h k r t = absurd (omega arith)
kcp_recv_without-overflow e soc buf (suc m) x y xs ys l h k r t =
    rw (write_bytes-fits buf 0 (x ∷ xs) l (omega arith)) (
      drain_socket-overflow e m soc (written buf 0 (x ∷ xs)) (length (x ∷ xs)) (suc m) l y ys h r
        (rw (length-written buf 0 (x ∷ xs) (omega arith)) t))
