-- ===== src/Tests/Plugs.antt =====
-- Reading, with the KCP library and without, on a concrete system.
use udp_kcp_plugin.Base.{
  ℕ, ◌+◌, ◌≤◌, ◌≡◌, refl, ap, none, some, [], ◌∷◌, arith, length, replicate, ◌==◌, Bool-cases, inl,
  inr, if◌then◌else◌, Option,
}
use udp_kcp_plugin.Base.Outcome.{fault, out_of_bounds}
use udp_kcp_plugin.Base.Hoare.{Returns}
use udp_kcp_plugin.System.{Bytes, Addr, Log, RecvFits, KcpRecvFits}
use udp_kcp_plugin.Plug.{use_kcp_plug, kcp_recv_with, kcp_recv_without}
use udp_kcp_plugin.Client.Decimal.{decimal}
use udp_kcp_plugin.Client.{Client, accepted, get_kcp_conv_id}
use udp_kcp_plugin.Client.Answering.{Answers, client_recv-Answers}
use udp_kcp_plugin.Plug.Messages.{Quiet}
use udp_kcp_plugin.Client.Ends.{Ending, client_recv-Ends}
use udp_kcp_plugin.Plug.Contents.{handed_out, read_off, Gathers}
use udp_kcp_plugin.Plug.Gathering.{kcp_recv_with-Gathers, kcp_recv_without-Gathers}
use udp_kcp_plugin.Plug.Socket.{kcp_recv_without-overflow}
use udp_kcp_plugin.Tests.{fresh_of, sample, sample_without, hello, take-fits, answer, datagram}

pub answer-fits :
    (l : Log) (n turn : ℕ) (xs bs : Bytes) → answer l n turn xs ≡ some bs → length bs ≤ n
answer-fits l n turn xs bs h = elim (Bool-cases (length l == turn)) [
  | inl t ↦ take-fits n xs bs (ground arith)
  | inr f ↦ absurd (ground arith)
]

pub sample-KcpRecvFits : KcpRecvFits sample
sample-KcpRecvFits = record { kcp_recv_fits = λ l b n bs h. answer-fits l n 3 hello bs h }

-- One datagram waits before the first call, and one message after the third.
pub sample-Quiet : Quiet sample
sample-Quiet = record {
  waiting = λ l. if length l == 0 then 1 else 0;
  messages = λ l. if length l == 3 then 1 else 0;
  waiting_bounded = λ l. ground arith;
  messages_bounded = λ l. ground arith;
  fed = λ l h n b x xs r. ground arith;
  drained = λ l b n bs r. ground arith;
}

kcp_recv_with-Gathers_example :
    Returns
      (λ (r : (Bytes × ℕ) × Log). Gathers handed_out [] (replicate 512 0) [] r × (r.0.1 ≤ 512))
      (kcp_recv_with sample (some 9) (some 7) (some hello) (replicate 512 0) 512 [])
kcp_recv_with-Gathers_example =
    kcp_recv_with-Gathers sample sample-Quiet sample-KcpRecvFits (some 9) (some 7) (some hello)
      (replicate 512 0) 512 [] (omega arith)

received_from-fits :
    (l : Log) (n : ℕ) (bs : Bytes) (a : Addr) → datagram l n ≡ some (bs, a) → length bs ≤ n
received_from-fits l n bs a h = elim (Bool-cases (length l == 1)) [
  | inl t ↦ take-fits n hello bs (
      ap
        (λ (o : Option (Bytes × Addr)). elim o as (λ _. Option Bytes) [
          | none ↦ none
          | some x ↦ some x.0
        ])
        (rw t at h))
  | inr f ↦ absurd (ground arith)
]

sample_without-RecvFits : RecvFits sample_without
sample_without-RecvFits = record {
  recv_fits = λ l h n bs r. answer-fits l n 0 hello bs r;
  recv_from_fits = λ l h n bs a r. received_from-fits l n bs a r;
}

kcp_recv_without-Gathers_example :
    Returns
      (λ (r : (Bytes × ℕ) × Log).
        Gathers read_off hello (replicate 514 0) [] r × (r.0.1 ≤ length hello + 512))
      (kcp_recv_without sample_without (some 7) (some hello) (replicate 514 0) 512 [])
kcp_recv_without-Gathers_example =
    kcp_recv_without-Gathers sample_without sample_without-RecvFits (some 7) (some hello)
      (replicate 514 0) 512 [] (omega arith)

kcp_recv_without-overflow_example :
    kcp_recv_without sample_without (some 7) (some (1 ∷ 2 ∷ [])) (0 ∷ 0 ∷ 0 ∷ []) 3 []
    ≡ fault out_of_bounds
kcp_recv_without-overflow_example =
    kcp_recv_without-overflow sample_without (some 7) (0 ∷ 0 ∷ 0 ∷ []) 3 1 104 (2 ∷ []) (105 ∷ [])
      [] (omega arith) (omega arith) refl (omega arith)

-- A client in conversation 77, on the system where a datagram and a message wait.
abbrev talking : Client
talking = record (fresh_of (some accepted)) { conv_id = 77; block = some 77 }

client_recv-Ends_example : Ending sample talking (some hello) []
unfolding get_kcp_conv_id use_kcp_plug
client_recv-Ends_example =
    client_recv-Ends sample sample-Quiet sample-KcpRecvFits talking (some hello) [] refl
      (λ h. absurd (cc)) (record { full_size = refl; at_start = refl })

client_recv-Answers_example :
    Answers (λ b bs. (b ≡ 77) × (bs ≡ decimal 77)) sample talking 77 (some hello) []
unfolding get_kcp_conv_id use_kcp_plug
client_recv-Answers_example =
    client_recv-Answers sample sample-Quiet sample-KcpRecvFits
      (λ b bs. (b ≡ 77) × (bs ≡ decimal 77)) talking 77 (some hello) [] refl (λ h. absurd (cc)) refl
      (record { full_size = refl; at_start = refl })
