-- ===== src/Client/Decimal.antt =====
-- The text that `snprintf(buf, sizeof(buf), "%u", id)` writes.
use udp_kcp_plugin.Base.{ℕ, zero, suc, ◌+◌, ◌/◌, ◌%◌, ltb, true, false, [], ◌∷◌, ◌++◌}
use udp_kcp_plugin.System.{Bytes}

-- At most `fuel + 1` digits, the last one first computed.
decimal_digits : ℕ → ℕ → Bytes
decimal_digits zero n = (48 + n % 10) ∷ []
decimal_digits (suc fuel) n = elim (ltb n 10) [
  | true ↦ (48 + n) ∷ []
  | false ↦ decimal_digits fuel (n / 10) ++ ((48 + n % 10) ∷ [])
]

-- A uint32 has at most ten digits.
unfoldable pub decimal : ℕ → Bytes
unfolding decimal_digits
decimal n = decimal_digits 9 n
