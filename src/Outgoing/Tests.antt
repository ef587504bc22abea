-- ===== src/Outgoing/Tests.antt =====
-- A bus with one device on it (src/bus/bus.cc, src/adapter/base_adapter.cc): a message that is
-- submitted in the synchronised mode waits for the commit.
use encos_driver.Prelude.{◌≡◌, refl, true, false, [], ◌∷◌}
use encos_driver.Frame.{MotorPackMsg, sanitize, no_payload}
use encos_driver.Port.Queue.{enqueue, keep_newest}
use encos_driver.Outgoing.{
  Bus, sends_synchronized, new_bus, make_device_writer, submit_device_message, set_bus_sync_mode,
  drain, Adapter, commit, unless_empty,
}
use encos_driver.Outgoing.Safety.{
  Made, fresh, more, makes_writer, submits_device, waiting, all_flushed, all_waiting,
  commit-flushes,
}

abbrev frame : MotorPackMsg
frame = record { id = 1; frame_flags = 0; len = 8; payload = no_payload }

abbrev with_device : Bus
with_device = (make_device_writer (new_bus 0 true))

abbrev loaded : Bus
loaded = (submit_device_message with_device 0 frame).0

abbrev direct : Bus
direct = (set_bus_sync_mode loaded false).0

loaded-Made : Made loaded
loaded-Made = more (more (fresh 0 true) makes_writer) (submits_device 0 frame)

loaded-waiting : waiting loaded ≡ record { bus_idx = 0; pack = frame } ∷ []
unfolding make_device_writer submit_device_message enqueue keep_newest sanitize
loaded-waiting = refl

direct-mode : direct.sync_mode ≡ false
unfolding make_device_writer submit_device_message set_bus_sync_mode drain
direct-mode = refl

abbrev adapter : Adapter
adapter = record { default_sync_mode = true; buses = loaded ∷ new_bus 1 false ∷ [] }

commit-flushes_example : commit (λ b. true) adapter ≡ (
  record { default_sync_mode = true; buses = all_flushed (λ b. true) true adapter.buses },
  unless_empty sends_synchronized (all_waiting (λ b. true) adapter.buses),
)
commit-flushes_example = commit-flushes (λ b. true) adapter (loaded-Made, (fresh 1 false, tt))
