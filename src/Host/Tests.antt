-- ===== src/Host/Tests.antt =====
-- A host with three slots of 200 bytes.
use shm.Base.{◌≡◌, refl, true, false, [], ◌∷◌, arith}
use shm.Slot.Exchange.{resource_exhausted}
use shm.Host.{
  HostConfig, half_size, slot_size, per_slot_total, total_size, slot_at, slots_from, Os, all_events,
  ready, failed, init,
}
use shm.Host.Layout.{IsExpressible, SetsUp, init-SetsUp}

abbrev config : HostConfig
config = record { num_host_slots = 2; num_guest_slots = 1; payload_size = 200 }

abbrev os : Os
os = record { creates_shm = true; locks_shm = true; creates_events = λ i. true }

-- Slots of 328 bytes behind a header of 64.
init-config :
    init os false config
    ≡ ready (record {
      exchange = record {
        num_slots = 2;
        num_guest_slots = 1;
        slot_size = 200;
        req_offset = 0;
        resp_offset = 64;
        fast_path_allowed = true;
      };
      slots = slot_at 200 0 64 ∷ slot_at 200 1 392 ∷ slot_at 200 2 720 ∷ [];
      msg_seq_stride = 3;
      total_shm_size = 1048;
    })
unfolding init all_events slots_from total_size per_slot_total slot_size half_size
init-config = refl

init-locked : init (record os { locks_shm = false }) false config ≡ failed resource_exhausted
unfolding init
init-locked = refl

config-IsExpressible : IsExpressible config
unfolding per_slot_total slot_size half_size
config-IsExpressible = omega arith

init-SetsUp_example : SetsUp false config (init os false config)
init-SetsUp_example = init-SetsUp os false config config-IsExpressible
