-- ===== src/Base/Queue/Count.antt =====
-- The 32 bits of `_size` of xrtc_server/src/base/lock_free_queue.h.
use dcj_rtc.Prelude.{ℕ, zero, suc, ◌-◌, ◌%◌, ◌^◌, ◌<◌, ◌≡◌, refl, ℤ, pos, negsuc, as_int32, arith}
use dcj_rtc.Base.Queue.{increment, decrement}

pub increment-as_int32 : (n : ℕ) → increment (as_int32 n) ≡ as_int32 (suc n)
unfolding increment
increment-as_int32 n = ground arith

pub decrement-as_int32 : (n : ℕ) → decrement (as_int32 (suc n)) ≡ as_int32 n
unfolding decrement
decrement-as_int32 n = ground arith

-- A number kept in an `int`.
abbrev pub wrap : ℤ → ℤ
wrap (pos n) = as_int32 n
wrap (negsuc n) = as_int32 (2 ^ 32 - 1 - n % 2 ^ 32)

-- One more and one less without an end.
abbrev pub next : ℤ → ℤ
next (pos n) = pos (suc n)
next (negsuc zero) = pos 0
next (negsuc (suc n)) = negsuc n

abbrev pub previous : ℤ → ℤ
previous (pos zero) = negsuc 0
previous (pos (suc n)) = pos n
previous (negsuc n) = negsuc (suc n)

pub increment-wrap : (z : ℤ) → increment (wrap z) ≡ wrap (next z)
unfolding increment
increment-wrap (pos n) = ground arith
increment-wrap (negsuc zero) = refl
increment-wrap (negsuc (suc n)) = ground arith

pub decrement-wrap : (z : ℤ) → decrement (wrap z) ≡ wrap (previous z)
unfolding decrement
decrement-wrap (pos zero) = refl
decrement-wrap (pos (suc n)) = ground arith
decrement-wrap (negsuc n) = ground arith

pub wrap_small : (n : ℕ) → n < 2 ^ 31 → wrap (pos n) ≡ pos n
wrap_small n h = ground arith
