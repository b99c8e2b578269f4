-- ===== src/Driver/Control/Tests.antt =====
-- The driver's requests, its device and its streams on concrete data.
use smartmic_windows.Prelude.{
  ℕ, ◌==◌, ◌||◌, ◌∷◌, ◌≡◌, ◌≢◌, refl, Bool, true, false, List, [], none, some, arith,
}
use smartmic_windows.Driver.Status.{success, nt_success, other}
use smartmic_windows.Driver.Tests.{three_waiting}
use smartmic_windows.Driver.Claim.{map_for}
use smartmic_windows.Driver.Claim.Exclusive.{held}
use smartmic_windows.Driver.Control.{
  Driver, Ioctl, nothing, control_reference, create, device_control, handle_private_ioctl,
  ring_ioctl, close, map_ring, release_of,
}
use smartmic_windows.Driver.Control.Requests.{
  Request, creates, controls, closes, dispatches, mapping_of,
}
use smartmic_windows.Driver.Control.Owner.{got_mapped, requests_exclusive, close_gives_up}
use smartmic_windows.Driver.Attach
use smartmic_windows.Driver.Attach.{
  Link, opened, start, start_opened, negotiate, attach, ioctl, beat_ring,
}
use smartmic_windows.Driver.Attach.Exclusive.{Refused, start-Refused}
use smartmic_windows.Driver.Life
use smartmic_windows.Driver.Life.{
  add_device, add_ring, add_adapter, initialize, pnp_handler, surprise_removal,
}
use smartmic_windows.Driver.Life.Balance.{device_leaves_nothing}
use smartmic_windows.Driver.Adapter.{References, install_subdevices, install_subdevices-keeps}
use smartmic_windows.Driver.Adapter
use smartmic_windows.Driver.Stream.{Format}

-- Names are equal where their lengths are.
abbrev same_name : List ℕ → List ℕ → Bool
same_name [] [] = true
same_name (x ∷ xs) (y ∷ ys) = same_name xs ys
same_name _ _ = false

-- A driver with an unclaimed ring, whose file objects 1 and 2 are control handles.
abbrev ready : Driver
ready = record {
  context = some (record {
    ring = some (record {
      ring = three_waiting;
      has_memory = true;
      mapping = record { has_mdl = true; claimed = false; user_va = false; client = none };
    });
    interface_registered = true;
  });
  tagged = λ f. (f == 1) || (f == 2);
  blocks = 5;
}

abbrev maps_as : ℕ → Ioctl
maps_as p = record {
  process = p;
  can_map = true;
  code = map_ring;
  in_len = 0;
  out_len = 16;
  has_buffer = true;
}

abbrev others : List Request
others = creates 11 (some 3) [] ∷ controls (some 2) (maps_as 11) ∷ closes 12 (some 2) ∷ []

abbrev mapped_ready : Driver
mapped_ready = (device_control (some 1) (maps_as 10) ready).1

mapped_run : (device_control (some 1) (maps_as 10) ready).0 ≡ got_mapped
unfolding device_control handle_private_ioctl ring_ioctl map_for
mapped_run = refl

requests_exclusive_example :
    let d' = dispatches same_name others mapped_ready in
    (mapping_of d' ≡ some (held 10))
    × ((device_control (some 2) (maps_as 11) d').0 ≢ got_mapped)
    × (mapping_of (device_control (some 2) (maps_as 11) d').1 ≡ some (held 10))
requests_exclusive_example =
    requests_exclusive same_name (some 1) (some 2) (maps_as 10) (maps_as 11) others ready mapped_run
      (omega arith, (omega arith, (omega arith, tt))) (omega arith)

mapped_by_ten : mapping_of mapped_ready ≡ some (held 10)
unfolding device_control handle_private_ioctl ring_ioctl map_for
mapped_by_ten = refl

still_tagged : (close 10 (some 7) mapped_ready).1.tagged 2 ≡ true
unfolding close release_of device_control handle_private_ioctl ring_ioctl map_for
still_tagged = refl

-- Process 10 closes a file object that is no control handle.
close_gives_up_example :
    let (answer, d') = device_control (some 2) (maps_as 11) (close 10 (some 7) mapped_ready).1 in
    (answer ≡ got_mapped) × (mapping_of d' ≡ some (held 11))
close_gives_up_example =
    close_gives_up 10 2 (some 7) (maps_as 11) mapped_ready mapped_by_ten refl refl refl refl refl
      still_tagged

abbrev nothing_yet : Driver
nothing_yet = record { context = none; tagged = λ f. false; blocks = 0 }

abbrev all_well : Life.Answers
all_well = record {
  context_allocated = true;
  object_allocated = true;
  ring_allocated = true;
  ring_described = true;
  adapter_added = success;
  interface_registered = success;
}

added : nt_success (add_device all_well nothing_yet).0 ≡ true
unfolding add_device add_ring add_adapter initialize
added = refl

-- A process takes the ring between the device's coming and its going.
abbrev in_between : List Request
in_between = creates 10 (some 5) control_reference ∷ controls (some 5) (maps_as 10) ∷ []

device_leaves_nothing_example :
    let (status, d') = add_device all_well nothing_yet in
    let removed = (pnp_handler surprise_removal (dispatches same_name in_between d')).1 in
    (nt_success status ≡ false → d' ≡ nothing_yet)
    × (nt_success status ≡ true → (removed.context ≡ none) × (removed.blocks ≡ nothing_yet.blocks))
device_leaves_nothing_example =
    device_leaves_nothing same_name all_well surprise_removal in_between nothing_yet refl refl

abbrev not_registered : Adapter.Answers
not_registered = record {
  port_made = success;
  miniport_made = success;
  port_initialised = success;
  registered = other 9;
}

abbrev installed : Adapter.Answers
installed = record not_registered { registered = success }

abbrev endpoint_format : Format
endpoint_format = record {
  is_waveformatex = true;
  samples_per_sec = 48000;
  channels = 1;
  bits_per_sample = 16;
}

-- PortCls supports none of the private requests.
abbrev no_port_cls : Ioctl → Attach.Reply
no_port_cls q = record { ok = false; returned = 0; output = nothing }

abbrev an_idle_link : Link
an_idle_link = record { device = none; attached = false; driver_version = 0 }

-- The first service attaches.
first_starts :
    let (ok, l', d') =
      start same_name no_port_cls 10 true true 500
        (opened 5 control_reference)
        an_idle_link
        ready in
    (ok ≡ true) × (l'.attached ≡ true) × (mapping_of d' ≡ some (held 10))
unfolding start start_opened negotiate attach ioctl beat_ring device_control handle_private_ioctl
    ring_ioctl map_for create
first_starts = (refl, refl, refl)

start-Refused_example : Refused 10 (
    start same_name no_port_cls 11 true true 500
      (opened 6 control_reference)
      an_idle_link
      mapped_ready)
start-Refused_example =
    start-Refused same_name no_port_cls 10 11 (λ e. ground (arith, e)) true true 500 6
      control_reference an_idle_link mapped_ready refl refl mapped_by_ten
