-- ===== src/Host/ZeroCopy/FlatBuffer.antt =====
-- `SendFlatBuffer` of include/shm/DirectHost.h beside `Send`.
use shm.Base.{ℕ, ◌^◌, ◌<◌, ◌≡◌, refl, Bool, arith}
use shm.Wire.{flatbuffer}
use shm.Slot.{Env, World}
use shm.Slot.Exchange.{Slot, abs_size}
use shm.Host.Handle.{Handle}
use shm.Host.ZeroCopy.{neg32, send_zero_copy, send_flat_buffer}

abs_size-neg32 : (size : ℕ) → size < 2 ^ 31 → abs_size (neg32 size) ≡ size
abs_size-neg32 size l = ground (arith, l)

-- `SendFlatBuffer` of a size that is not negative is `Send` of its negation, with the type of a
-- FlatBuffer: whatever the handle, the slot and the others, the two calls end alike.
pub send_flat_buffer-same :
    (e : Env) (fuel : ℕ) (alive : Bool) (h : Handle) (s : Slot) (size timeout_ms : ℕ) (w : World)
    → size < 2 ^ 31
    → send_flat_buffer e fuel alive h s size timeout_ms w
      ≡ send_zero_copy e fuel alive h s (neg32 size) flatbuffer timeout_ms w
unfolding send_flat_buffer send_zero_copy
send_flat_buffer-same e fuel alive h s size timeout_ms w l = rw (abs_size-neg32 size l) refl
