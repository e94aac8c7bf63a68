-- ===== src/Notify/Backoff.antt =====
-- `notificationRetryBackoff` of server/internal/notification_delivery.go, in nanoseconds.
use Prim.Native.Nat.{min}
use native.Mathlib.Nat.{pow-suc}
use agents_management.Prelude.{
  ℕ, zero, suc, ◌+◌, ◌-◌, ◌*◌, ◌^◌, ◌&&◌, ◌<◌, Bool, true, false, not, ◌≡◌, refl, arith, leb, ◌==◌,
  if◌then◌else◌, ℤ, pos, negsuc, ◌<=◌, int64,
}

abbrev pub minute : ℕ
minute = 60000000000

abbrev pub hour : ℕ
hour = 3600000000000

-- `time.Minute * time.Duration(1<<(attempt-1))` on an int64, then the cap. The int64 product has the
-- bit pattern of the exact product.
shifted : ℕ → ℤ
unfolding int64
shifted shift = int64 (minute * 2 ^ shift)

capped : ℤ → ℤ
capped backoff = if not (backoff <= pos hour) then pos hour else backoff

unfoldable pub retry_backoff : ℤ → ℤ
unfolding shifted capped
retry_backoff (pos attempt) = if leb attempt 1 then pos minute else capped (shifted (attempt - 1))
retry_backoff (negsuc n) = pos minute

-- One minute doubled for each failure after the first, one hour at most.
abbrev pub delay : ℕ → ℕ
delay attempt = min hour (minute * 2 ^ (attempt - 1))

is_pos : ℤ → ℕ → Bool
is_pos (pos n) m = n == m
is_pos (negsuc n) m = false

is_pos_sound : (z : ℤ) (m : ℕ) → is_pos z m ≡ true → z ≡ pos m
unfolding is_pos
is_pos_sound (pos n) m h = ground arith
is_pos_sound (negsuc n) m h = cc

-- The test holds of the first `bound` numbers.
passes_up_to : (ℕ → Bool) → ℕ → Bool
passes_up_to test zero = true
passes_up_to test (suc bound) = passes_up_to test bound && test bound

passes_up_to_lem :
    (test : ℕ → Bool) (bound k : ℕ) → k < bound → passes_up_to test bound ≡ true → test k ≡ true
unfolding passes_up_to
passes_up_to_lem test zero k lt h = absurd (omega arith)
passes_up_to_lem test (suc bound) k lt h = ground (arith, passes_up_to_lem test bound k)

delay_table : passes_up_to (λ n. is_pos (retry_backoff (pos n)) (delay n)) 29 ≡ true
unfolding passes_up_to is_pos retry_backoff
delay_table = refl

-- Up to the 28th failure the delay is one minute, doubled for each failure after the first and cut
-- at one hour.
pub retry_backoff_lem :
    (attempt : ℕ) → attempt < 29 → retry_backoff (pos attempt) ≡ pos (delay attempt)
retry_backoff_lem attempt h =
    is_pos_sound _ _
      (passes_up_to_lem (λ n. is_pos (retry_backoff (pos n)) (delay n)) 29 attempt h delay_table)

exact_product : (k : ℕ) → minute * 2 ^ (53 + k) ≡ 29296875 * 2 ^ k * 2 ^ 64
exact_product zero = refl
exact_product (suc k) =
    let step : 53 + suc k ≡ suc (53 + k) = omega arith in
    rw step (rw (pow-suc 2 (53 + k)) (rw (pow-suc 2 k) (omega (arith, exact_product k))))

int64_multiple : (q : ℕ) → int64 (q * 2 ^ 64) ≡ pos 0
unfolding int64
int64_multiple q = ground arith

-- From the 54th failure on the exact product, one minute times two for each failure after the first, is
-- a multiple of 2^64, and the delay is zero.
pub retry_backoff_overflow :
    (k : ℕ)
    → ((q : ℕ) × (minute * 2 ^ (54 + k - 1) ≡ q * 2 ^ 64)) × (retry_backoff (pos (54 + k)) ≡ pos 0)
unfolding retry_backoff
retry_backoff_overflow k =
    let late : leb (54 + k) 1 ≡ false = ground arith in
    let shift : 54 + k - 1 ≡ 53 + k = omega arith in
    (
      (29296875 * 2 ^ k, rw shift (exact_product k)),
      rw (late, shift, exact_product k, int64_multiple (29296875 * 2 ^ k)),
    )
