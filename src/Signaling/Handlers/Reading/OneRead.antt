-- ===== src/Signaling/Handlers/Reading/OneRead.antt =====
-- What one call of `sock_read_data` by `_read_conn` of xrtc_server/src/server/signaling_worker.cpp
-- asks for and leaves.
use dcj_rtc.Prelude.{
  ℕ, suc, ℤ, pos, ◌+◌, ◌<◌, ◌≡◌, refl, some, Bytes, [], ◌∷◌, ◌++◌, Outcome, ok, length, take, drop,
  arith, length-append, ap, zero,
}
use dcj_rtc.Base.Socket.{received, sock_read_data}
use dcj_rtc.Wire.{xhead_size, head_body_len}
use dcj_rtc.Signaling.Conn.{TcpConnection}
use dcj_rtc.Signaling.Framing.{short_connection}
use dcj_rtc.Signaling.Framing.Stream.{
  InPhase, awaits_head, awaits_body, answered, head_body_len-append,
}
use dcj_rtc.Signaling.Framing.Received.{Received, goes_on, fails, faults, hangs}
use dcj_rtc.Signaling.Handlers.{clip}

-- What the loop's result is when the bytes `b` and those behind them come to `ok (pos 0, s)`.
pub data GoesOn {W T S : Type 0} (f : Bytes → Outcome (ℤ × S)) (b : Bytes)
    (r : Outcome (ℤ × TcpConnection W T × S)) : Type 0 where
  goes :
      (c : TcpConnection W T) (s : S)
      → r ≡ ok (pos 0, c, s)
      → c.querybuf ≡ b
      → InPhase c b
      → f b ≡ ok (pos 0, s)
      → GoesOn f b r

pub Received-GoesOn :
    {W T S : Type 0} (f : Bytes → Outcome (ℤ × S)) (b rest : Bytes) (s1 : S)
    {r : Outcome (ℤ × TcpConnection W T × S)}
    → Received f b r
    → f (b ++ rest) ≡ ok (pos 0, s1)
    → GoesOn f b r
Received-GoesOn f b rest s1 (goes_on c s e buf ph sv) h = goes c s e buf ph sv
Received-GoesOn f b rest s1 (fails c s e sv) h = absurd (ground (arith, sv rest))
Received-GoesOn f b rest s1 (faults e sv) h = absurd (ground (arith, sv rest))
Received-GoesOn f b rest s1 (hangs e sv) h = absurd (ground (arith, sv rest))

-- The reads in the middle of a request ask for some bytes, and never for many.
pub phase_bounds :
    {W T : Type 0} (c : TcpConnection W T) (b rest : Bytes)
    → InPhase c b
    → 0 < length rest
    → length (b ++ rest) ≡ xhead_size + head_body_len (b ++ rest)
    → length (b ++ rest) < short_connection
    → (0 < c.bytes_expected) × (c.bytes_expected < short_connection)
phase_bounds c b rest (awaits_head st ex pr short) more exact small = rw ex (omega arith)
phase_bounds c b rest (awaits_body st ex pr magic long short) more exact small =
    rw ex (omega (arith, head_body_len-append b rest long))
phase_bounds c b rest (answered st ex pr magic whole) more exact small =
    absurd (omega (arith, length-append b rest, head_body_len-append b rest (omega arith)))

-- What is read and what is left are the stream.
pub read-append-rest :
    (e n : ℕ) (s : Bytes) → take e (take n s) ++ drop (length (take e (take n s))) s ≡ s
read-append-rest zero n s = refl
read-append-rest (suc e) zero s = refl
read-append-rest (suc e) (suc n) [] = refl
read-append-rest (suc e) (suc n) (x ∷ s) = ap (λ t. x ∷ t) (read-append-rest e n s)

pub sock_read_data-clip :
    (e n x : ℕ) (s : Bytes)
    → 0 < e
    → (sock_read_data (clip e (received (take (suc n) (x ∷ s))))
        ≡ some (take e (take (suc n) (x ∷ s))))
      × (0 < length (take e (take (suc n) (x ∷ s))))
unfolding sock_read_data
sock_read_data-clip zero n x s h = absurd (omega arith)
sock_read_data-clip (suc e) n x s h = (refl, omega arith)
