-- ===== src/Driver/Control.antt =====
-- windows/driver/driver.cpp: the requests that reach the driver, its private control interface, and
-- the device's life. PortCls and the kernel are not modelled: what they answer is an argument, and
-- a request that is handed on to PortCls gives `to_port_cls`. Requests run one after another.
pub mod Requests
pub mod Owner
pub mod Tests
use smartmic_windows.Prelude.{
  ℕ, ◌+◌, ◌-◌, ◌*◌, ◌^◌, Bool, true, false, ◌&&◌, ◌||◌, not, Option, none, some, List, [], ◌∷◌,
  length, ltb, ◌==◌, if◌then◌else◌,
}
use smartmic_windows.Driver.Status.{
  Status, success, device_not_ready, insufficient_resources, invalid_parameter, not_supported,
  device_already_attached, nt_success,
}
use smartmic_windows.Driver.Ring.{Ring, Stats, get_stats}
use smartmic_windows.Driver.Claim.{Mapping, map_for, unmap_for, release_claim}

abbrev pub driver_version : ℕ
driver_version = 65536

abbrev pub ring_version : ℕ
ring_version = 1

-- SMARTMIC_RING_TOTAL_BYTES
abbrev pub ring_total_bytes : ℕ
ring_total_bytes = 256 + 8192 * 2

-- The sizes of SMARTMIC_VERSION_INFO, SMARTMIC_MAP_RESULT and SMARTMIC_STATS.
abbrev pub version_info_bytes : ℕ
version_info_bytes = 16

abbrev pub map_result_bytes : ℕ
map_result_bytes = 16

abbrev pub stats_bytes : ℕ
stats_bytes = 24

-- A `CSmartMicRing`: whether `m_systemVa` is set, the memory there, and who has mapped it.
pub record RingObject : Type 0 where
  pub has_memory : Bool
  pub ring : Ring
  pub mapping : Mapping

-- What SMARTMIC_DEVICE_CONTEXT holds of its device.
pub record Context : Type 0 where
  pub ring : Option RingObject
  pub interface_registered : Bool

-- g_SmartMicContext; for each file object whether its FsContext is SMARTMIC_FILE_TAG; and how many
-- blocks of the driver are allocated.
pub record Driver : Type 0 where
  pub context : Option Context
  pub tagged : ℕ → Bool
  pub blocks : ℕ

pub data IoControlCode : Type 0 where
  get_version map_ring unmap_ring get_stats_code : IoControlCode
  other_code : ℕ → IoControlCode

-- What a request copies to the caller.
pub data Output : Type 0 where
  nothing mapped : Output
  version : ℕ → ℕ → ℕ → Output
  stats : Stats → Output

-- A request is completed, with `Information` and an output, or handed on.
pub data Answer : Type 0 where
  completes : Status → ℕ → Output → Answer
  to_port_cls : Answer

-- A device-control request: who sends it, whether its memory can be mapped, and its parameters.
pub record Ioctl : Type 0 where
  pub process : ℕ
  pub can_map : Bool
  pub code : IoControlCode
  pub in_len : ℕ
  pub out_len : ℕ
  pub has_buffer : Bool

-- The test of the lengths, where an output of `n` bytes is asked for.
abbrev pub lengths_fit : ℕ → Ioctl → Bool
lengths_fit n q = (q.in_len == 0) && (q.out_len == n) && q.has_buffer

-- The status, `Information`, output and ring of a request that maps.
abbrev pub map_answer : Status × Mapping → RingObject → Answer × RingObject
map_answer (success, m) o = (completes success map_result_bytes mapped, record o { mapping = m })
map_answer (status, m) o = (completes status 0 nothing, record o { mapping = m })

-- `SmartMicHandlePrivateIoctl` on a ring.
unfoldable pub ring_ioctl : Ioctl → RingObject → Answer × RingObject
unfolding map_for unmap_for get_stats
ring_ioctl q o = elim q.code [
  | get_version ↦
      if lengths_fit version_info_bytes q
      then (
        completes success version_info_bytes (version driver_version ring_version ring_total_bytes),
        o,
      )
      else (completes invalid_parameter 0 nothing, o)
  | map_ring ↦
      if lengths_fit map_result_bytes q
      then map_answer (map_for q.process q.can_map o.mapping) o
      else (completes invalid_parameter 0 nothing, o)
  | unmap_ring ↦
      if (q.in_len == 0) && (q.out_len == 0)
      then (let (status, m) = unmap_for q.process o.mapping in
          (completes status 0 nothing, record o { mapping = m }))
      else (completes invalid_parameter 0 nothing, o)
  | get_stats_code ↦
      if lengths_fit stats_bytes q
      then (completes success stats_bytes (stats (get_stats o.ring)), o)
      else (completes invalid_parameter 0 nothing, o)
  | other_code n ↦ (to_port_cls, o)
]

-- The object that g_SmartMicContext->ring points to, if both pointers are set.
abbrev pub ring_of : Option Context → Option RingObject
ring_of none = none
ring_of (some c) = c.ring

-- The driver with another object there.
abbrev pub with_ring : Driver → RingObject → Driver
with_ring d o = elim d.context [
  | none ↦ d
  | some c ↦ record d { context = some (record c { ring = some o }) }
]

-- `SmartMicHandlePrivateIoctl`, with what `SmartMicDeviceControl` makes of its result.
unfoldable pub handle_private_ioctl : Ioctl → Driver → Answer × Driver
unfolding ring_ioctl
handle_private_ioctl q d = elim (ring_of d.context) [
  | none ↦ (completes device_not_ready 0 nothing, d)
  | some o ↦ let (answer, o') = ring_ioctl q o in (answer, with_ring d o')
]

-- `SmartMicIsOurFile`; a request may have no file object.
abbrev pub is_our_file : Option ℕ → Driver → Bool
is_our_file none d = false
is_our_file (some f) d = d.tagged f

abbrev pub set_tag : ℕ → Bool → Driver → Driver
set_tag f b d = record d { tagged = λ g. if g == f then b else d.tagged g }

-- SMARTMIC_CONTROL_REFERENCE, "SmartMicControl"
abbrev pub control_reference : List ℕ
control_reference =
    83 ∷ 109 ∷ 97 ∷ 114 ∷ 116 ∷ 77 ∷ 105 ∷ 99 ∷ 67 ∷ 111 ∷ 110 ∷ 116 ∷ 114 ∷ 111 ∷ 108 ∷ []

-- The test of the file's name in `SmartMicCreate`, by RtlEqualUnicodeString without case.
abbrev pub is_control_name : (List ℕ → List ℕ → Bool) → List ℕ → Bool
is_control_name equal name =
    ltb 0 (length name) && (equal name (92 ∷ control_reference) || equal name control_reference)

-- `SmartMicCreate`; a file with no name buffer has the name [].
unfoldable pub create : (List ℕ → List ℕ → Bool) → Option ℕ → List ℕ → Driver → Answer × Driver
create equal none name d = (to_port_cls, d)
create equal (some f) name d =
    if is_control_name equal name
    then (completes success 1 nothing, set_tag f true d)
    else (to_port_cls, d)

-- `SmartMicCleanup`
unfoldable pub cleanup : Option ℕ → Driver → Answer × Driver
cleanup file d = if is_our_file file d then (completes success 0 nothing, d) else (to_port_cls, d)

-- `SmartMicDeviceControl`
unfoldable pub device_control : Option ℕ → Ioctl → Driver → Answer × Driver
unfolding handle_private_ioctl
device_control file q d =
    if not (is_our_file file d) then (to_port_cls, d) else handle_private_ioctl q d

-- The release at the top of `SmartMicClose`.
unfoldable pub release_of : ℕ → Driver → Driver
unfolding release_claim
release_of p d = elim (ring_of d.context) [
  | none ↦ d
  | some o ↦ with_ring d (record o { mapping = release_claim p o.mapping })
]

abbrev pub untag : Option ℕ → Driver → Driver
untag none d = d
untag (some f) d = set_tag f false d

-- `SmartMicClose` by process `p`.
unfoldable pub close : ℕ → Option ℕ → Driver → Answer × Driver
unfolding release_of
close p file d =
    let d' = release_of p d in
    if is_our_file file d then (completes success 0 nothing, untag file d') else (to_port_cls, d')
