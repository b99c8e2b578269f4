-- ===== src/Driver/Attach.antt =====
-- windows/audio-service/platform/windows/smartmic_driver_link.cpp: attaching to the driver and detaching.
-- The calls of the operating system reach the dispatch routines of Driver.Control. How file names are
-- compared, and what a request gets that the driver hands on to PortCls, are parameters; what opening the
-- device found, whether memory can be mapped and the magic number is right are arguments.
pub mod Exclusive
use smartmic_windows.Prelude.{
  ℕ, Bool, true, false, ◌&&◌, ◌||◌, not, Option, none, some, List, ltb, ◌==◌, if◌then◌else◌,
}
use smartmic_windows.Driver.Status.{nt_success}
use smartmic_windows.Driver.Ring.{beat}
use smartmic_windows.Driver.Control.{
  Driver, Ioctl, IoControlCode, Answer, Output, completes, to_port_cls, mapped, version, stats,
  nothing, get_version, map_ring, unmap_ring, ring_version, ring_total_bytes, version_info_bytes,
  map_result_bytes, create, cleanup, close, device_control, ring_of, with_ring,
}

-- `device_`, whether `ring_` and `payload_` are set, and `driverVersion_`.
pub record Link : Type 0 where
  pub device : Option ℕ
  pub attached : Bool
  pub driver_version : ℕ

-- What `findDevicePath` and CreateFileW give: a new file object, of a name in the device.
pub data Opening : Type 0 where
  no_path not_opened : Opening
  opened : ℕ → List ℕ → Opening

-- What DeviceIoControl gives: its result, the number of bytes and the output.
pub record Reply : Type 0 where
  pub ok : Bool
  pub returned : ℕ
  pub output : Output

abbrev pub is_mapped : Output → Bool
is_mapped mapped = true
is_mapped _ = false

abbrev pub driver_version_in : Output → ℕ
driver_version_in (version v ring total) = v
driver_version_in _ = 0

abbrev pub ring_matches : Output → Bool
ring_matches (version v ring total) = (ring == ring_version) && (total == ring_total_bytes)
ring_matches _ = false

module _ (equal : List ℕ → List ℕ → Bool) (port_cls : Ioctl → Reply) where
  abbrev pub reply_of : Ioctl → Answer → Reply
  reply_of q (completes status n out) = record {
    ok = nt_success status;
    returned = n;
    output = out;
  }
  reply_of q to_port_cls = port_cls q

  abbrev pub request : ℕ → Bool → IoControlCode → ℕ → Ioctl
  request p can_map code out_len = record {
    process = p;
    can_map = can_map;
    code = code;
    in_len = 0;
    out_len = out_len;
    has_buffer = ltb 0 out_len;
  }

  -- `DeviceIoControl` on a file object.
  unfoldable pub ioctl : ℕ → Ioctl → Driver → Reply × Driver
  ioctl f q d = let (answer, d') = device_control (some f) q d in (reply_of q answer, d')

  -- `CloseHandle` of the last handle of a file object, by process `p`.
  unfoldable pub close_handle : ℕ → ℕ → Driver → Driver
  close_handle p f d = (close p (some f) (cleanup (some f) d).1).1

  unfoldable pub close_device : ℕ → Link → Driver → Link × Driver
  unfolding ioctl close_handle
  close_device p l d = elim l.device [
    | none ↦ (record l { attached = false }, d)
    | some f ↦ (
      record l { device = none; attached = false },
      close_handle p f (ioctl f (request p true unmap_ring 0) d).1,
    )
  ]

  -- The end of each path of `start` that fails.
  unfoldable pub give_up : ℕ → Link → Driver → Bool × Link × Driver
  unfolding close_device
  give_up p l d = let (l', d') = close_device p l d in (false, l', d')

  -- The heartbeat in the mapped ring.
  unfoldable pub beat_ring : ℕ → Driver → Driver
  beat_ring now d = elim (ring_of d.context) [
    | none ↦ d
    | some o ↦ with_ring d (record o { ring = beat now o.ring })
  ]

  module _ (p : ℕ) (can_map magic_right : Bool) (now : ℕ) where
    -- `start` from MAP_RING on.
    unfoldable pub attach : ℕ → Link → Driver → Bool × Link × Driver
    unfolding ioctl give_up beat_ring
    attach f l d =
        let (r, d') = ioctl f (request p can_map map_ring map_result_bytes) d in
        if not r.ok || not (r.returned == map_result_bytes) || not (is_mapped r.output)
        then give_up p l d'
        else if not magic_right
        then give_up p (record l { attached = true }) d'
        else (true, record l { attached = true }, beat_ring now d')

    -- `start` from GET_VERSION on.
    unfoldable pub negotiate : ℕ → Link → Driver → Bool × Link × Driver
    unfolding ioctl give_up attach
    negotiate f l d =
        let (r, d') = ioctl f (request p true get_version version_info_bytes) d in
        if not r.ok || not (r.returned == version_info_bytes)
        then give_up p l d'
        else (let l' = record l { driver_version = driver_version_in r.output } in
            if not (ring_matches r.output) then give_up p l' d' else attach f l' d')

    unfoldable pub start_opened : Opening → Link → Driver → Bool × Link × Driver
    unfolding negotiate
    start_opened no_path l d = (false, l, d)
    start_opened not_opened l d = (false, record l { device = none }, d)
    start_opened (opened f name) l d =
        negotiate f (record l { device = some f }) (create equal (some f) name d).1

    -- `SmartMicDriverLink::start`, of process `p`.
    unfoldable pub start : Opening → Link → Driver → Bool × Link × Driver
    unfolding start_opened
    start opening l d = if l.attached then (true, l, d) else start_opened opening l d

  -- `stop`
  unfoldable pub stop : ℕ → Link → Driver → Link × Driver
  unfolding close_device
  stop p l d = close_device p l d
