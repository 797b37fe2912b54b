-- ===== src/Plug/Contents.antt =====
-- What is in the buffer when reading has returned.
use udp_kcp_plugin.Base.{
  ℕ, ◌+◌, ◌≤◌, ◌≡◌, refl, ◌∙◌, sym, ap, subst, some, inl, inr, [], ◌∷◌, ◌++◌, arith, length, drop,
  leb, Bool-cases, length-append, length-drop, append_assoc, take-length_append, drop-append,
  drop-drop,
}
use udp_kcp_plugin.Base.Outcome.{ok, chain, Prog}
use udp_kcp_plugin.Base.Hoare.{IfReturns}
use udp_kcp_plugin.System.{Bytes, Log, received, kcp_received}
use udp_kcp_plugin.Buffer.{write_bytes}
use udp_kcp_plugin.Buffer.Laws.{written, write_bytes-fits}

-- The bytes of the messages that the library has handed out, in the order of the calls.
abbrev pub handed_out : Log → Bytes
handed_out [] = []
handed_out (kcp_received b (some bs) ∷ l) = handed_out l ++ bs
handed_out (_ ∷ l) = handed_out l

-- The bytes that `recv` has handed out.
abbrev pub read_off : Log → Bytes
read_off [] = []
read_off (received h (some bs) ∷ l) = read_off l ++ bs
read_off (_ ∷ l) = read_off l

-- A buffer whose first bytes have been overwritten.
abbrev pub filled : Bytes → Bytes → Bytes
filled buf bs = bs ++ drop (length bs) buf

pub length-filled : (buf bs : Bytes) → length bs ≤ length buf → length (filled buf bs) ≡ length buf
length-filled buf bs h =
    omega (arith, length-append bs (drop (length bs) buf), length-drop (length bs) buf)

-- A write at the start of the buffer.
pub write_bytes-first :
    (buf bs : Bytes) (l : Log)
    → length bs ≤ length buf
    → write_bytes buf 0 bs l ≡ ok (filled buf bs, l)
write_bytes-first buf bs l h =
    write_bytes-fits buf 0 bs l (omega arith) ∙ ap (λ k. ok (bs ++ drop k buf, l)) (omega arith)

pub written-filled :
    (buf got bs : Bytes) → written (filled buf got) (length got) bs ≡ filled buf (got ++ bs)
written-filled buf got bs =
    rw
      (
        take-length_append got (drop (length got) buf),
        drop-append got (drop (length got) buf) (length bs) (length got + length bs) refl,
        drop-drop (length got) (length bs) (length (got ++ bs)) buf (length-append got bs),
      )
      (sym (append_assoc got bs (drop (length (got ++ bs)) buf)))

-- A write behind the bytes that are there, and what is done with the buffer and the length then.
pub write_bytes-filled :
    {A : Type 0} (Q : A × Log → Type 0) (buf got bs : Bytes) (k : Bytes → ℕ → Prog Log A) (l : Log)
    → IfReturns Q (k (filled buf (got ++ bs)) (length (got ++ bs)) l)
    → IfReturns Q (
        chain
          (write_bytes (filled buf got) (length got) bs l)
          (λ buf'. k buf' (length got + length bs)))
unfolding write_bytes
write_bytes-filled Q buf got bs k l h =
    elim (Bool-cases (leb (length got + length bs) (length (filled buf got)))) [
      | inl t ↦ rw t (
          subst (λ b. IfReturns Q (k b (length got + length bs) l))
            (sym (written-filled buf got bs))
            (subst (λ n. IfReturns Q (k (filled buf (got ++ bs)) n l)) (length-append got bs) h))
      | inr f ↦ rw f tt
    ]

-- The calls since `l` have handed out some bytes: the buffer holds what came first and then these, and
-- behind them what it held, and the length is that of both.
abbrev pub Gathers : (Log → Bytes) → Bytes → Bytes → Log → (Bytes × ℕ) × Log → Type 0
Gathers out first buf l r =
    (got : Bytes) × (out r.1 ≡ out l ++ got)
    × (r.0.0 ≡ filled buf (first ++ got))
    × (r.0.1 ≡ length (first ++ got))

-- One more call has handed out some bytes.
pub more :
    (a b first all got bs : Bytes)
    → a ≡ b ++ got
    → all ≡ first ++ got
    → (a ++ bs ≡ b ++ (got ++ bs)) × (all ++ bs ≡ first ++ (got ++ bs))
more a b first all got bs h k =
    (ap (λ x. x ++ bs) h ∙ append_assoc b got bs, ap (λ x. x ++ bs) k ∙ append_assoc first got bs)
