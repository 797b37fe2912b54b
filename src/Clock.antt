-- ===== src/Clock.antt =====
-- The clock: `itimeofday`, `iclock64` and `iclock` of wheel/src/wucomm.h. What
-- `gettimeofday`, `time` and the performance counter answer are arguments.
pub mod Laws
use udp_kcp_plugin.Base.{ℕ, ◌+◌, ◌-◌, ◌*◌, ◌/◌, ◌%◌, ◌^◌, Bool, ◌==◌, if◌then◌else◌, u32_mod, ltb}

pub record TimeOfDay : Type 0 where
  pub sec : ℕ
  pub usec : ℕ

-- Linux: what `gettimeofday` fills in is passed on.
unfoldable pub itimeofday : TimeOfDay → TimeOfDay
itimeofday now = record { sec = now.sec; usec = now.usec }

-- Windows: the statics of `itimeofday`. A `long` of 32 bits stands for its word, and sums of such wrap.
pub record Counter : Type 0 where
  pub mode : ℕ
  pub add_sec : ℕ
  pub freq : ℕ

unfoldable pub fresh_counter : Counter
fresh_counter = record { mode = 0; add_sec = 0; freq = 1 }

-- The first call: `freq` is the frequency of the counter, or 1 where that is 0, and `add_sec` the
-- seconds that lie before the counter's start.
unfoldable pub calibrate : Counter → (frequency seconds qpc : ℕ) → Counter
calibrate c frequency seconds qpc =
    let freq = if frequency == 0 then 1 else frequency in
    if c.mode == 0
    then record {
      mode = 1;
      add_sec = (seconds % 2 ^ 32 + 2 ^ 32 - qpc / freq % 2 ^ 31) % 2 ^ 32;
      freq = freq;
    }
    else c

-- The quotient of a signed word of 64 bits by a positive number, as a word of 32 bits.
unfoldable pub quotient_word : ℕ → ℕ → ℕ
quotient_word x d =
    if ltb x (2 ^ 63) then x / d % 2 ^ 32 else (2 ^ 32 - (2 ^ 64 - x) / d % 2 ^ 32) % 2 ^ 32

-- `qpc` is the counter's second answer, after the calibration.
unfoldable pub itimeofday_windows : Counter → ℕ → TimeOfDay
unfolding quotient_word
itimeofday_windows c qpc = record {
  sec = (qpc / c.freq % 2 ^ 32 + c.add_sec) % 2 ^ 32;
  usec = quotient_word (qpc % c.freq * 1000000 % 2 ^ 64) c.freq;
}

unfoldable pub iclock64 : TimeOfDay → ℕ
iclock64 t = t.sec * 1000 + t.usec / 1000

unfoldable pub iclock : TimeOfDay → ℕ
unfolding iclock64
iclock t = iclock64 t % u32_mod
