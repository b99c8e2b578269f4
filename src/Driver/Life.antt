-- ===== src/Driver/Life.antt =====
-- windows/driver/driver.cpp and ring.cpp: how the device comes and goes. Each allocation and each
-- call of PortCls or the kernel is an argument that says how it ends; `blocks` counts what the
-- driver has allocated, or was given to free, and not yet freed: the name of its interface too.
pub mod Balance
use smartmic_windows.Prelude.{
  ℕ, ◌+◌, ◌-◌, Bool, true, false, ◌&&◌, not, Option, none, some, if◌then◌else◌,
}
use smartmic_windows.Driver.Status.{
  Status, success, device_not_ready, insufficient_resources, device_already_attached, nt_success,
}
use smartmic_windows.Driver.Ring.{Ring}
use smartmic_windows.Driver.Control.{Driver, Context, RingObject, Answer, to_port_cls}

-- The object that the constructor of `CSmartMicRing` makes.
abbrev pub new_ring : RingObject
new_ring = record {
  has_memory = false;
  ring = record {
    is_ready = false;
    payload = λ i. 0;
    write_index = 0;
    producer_heartbeat = 0;
    read_index = 0;
    underrun_count = 0;
    overrun_count = 0;
    frames_delivered = 0;
    stream_open = false;
  };
  mapping = record { has_mdl = false; claimed = false; user_va = false; client = none };
}

-- The driver with some more, or fewer, blocks.
abbrev pub more : ℕ → Driver → Driver
more n d = record d { blocks = d.blocks + n }

abbrev pub fewer : ℕ → Driver → Driver
fewer n d = record d { blocks = d.blocks - n }

-- `CSmartMicRing::Initialize` of a new object, where its memory and its MDL can or cannot be
-- allocated.
unfoldable pub initialize : Bool → Bool → RingObject → Driver → Status × RingObject × Driver
initialize can_allocate can_describe o d =
    if not can_allocate
    then (insufficient_resources, o, d)
    else (let o' = record o { has_memory = true } in
        let d' = more 1 d in
        if not can_describe
        then (insufficient_resources, record o' { has_memory = false }, fewer 1 d')
        else (
          success,
          record o' {
            ring = record o'.ring { is_ready = true };
            mapping = record o'.mapping { has_mdl = true };
          },
          more 1 d',
        ))

-- `CSmartMicRing::Cleanup`
unfoldable pub cleanup_ring : RingObject → Driver → RingObject × Driver
cleanup_ring o d =
    let d' = if o.mapping.has_mdl then fewer 1 d else d in
    (
      record o {
        has_memory = false;
        ring = record o.ring { is_ready = false };
        mapping = record { has_mdl = false; claimed = false; user_va = false; client = none };
      },
      if o.has_memory then fewer 1 d' else d',
    )

-- `delete` of a ring object: its destructor, and its own block.
unfoldable pub delete_ring : RingObject → Driver → Driver
unfolding cleanup_ring
delete_ring o d = fewer 1 (cleanup_ring o d).1

-- How the calls that `SmartMicAddDevice` makes end.
pub record Answers : Type 0 where
  pub context_allocated : Bool
  pub object_allocated : Bool
  pub ring_allocated : Bool
  pub ring_described : Bool
  pub adapter_added : Status
  pub interface_registered : Status

-- `SmartMicAddDevice` from `PcAddAdapterDevice` on, with a ring that is initialised.
unfoldable pub add_adapter : Answers → RingObject → Driver → Status × Driver
unfolding delete_ring
add_adapter a o d =
    if not (nt_success a.adapter_added) then (a.adapter_added, fewer 1 (delete_ring o d)) else (
      success,
      (let registered = nt_success a.interface_registered in
          record d {
            context = some (record { ring = some o; interface_registered = registered });
            blocks = if registered then d.blocks + 1 else d.blocks;
          }),
    )

-- `SmartMicAddDevice` from `Initialize` on, with the context and the object allocated.
unfoldable pub add_ring : Answers → Driver → Status × Driver
unfolding initialize add_adapter delete_ring
add_ring a d =
    let (status, o, d') = initialize a.ring_allocated a.ring_described new_ring d in
    if not (nt_success status) then (status, fewer 1 (delete_ring o d')) else add_adapter a o d'

-- `SmartMicAddDevice`
unfoldable pub add_device : Answers → Driver → Status × Driver
unfolding add_ring
add_device a d = elim d.context [
  | some c ↦ (device_already_attached, d)
  | none ↦
      if not a.context_allocated
      then (insufficient_resources, d)
      else if not a.object_allocated
      then (insufficient_resources, fewer 1 (more 1 d))
      else add_ring a (more 1 (more 1 d))
]

-- The minor function of a plug-and-play request.
pub data Minor : Type 0 where
  remove_device surprise_removal other_minor : Minor

abbrev pub is_removal : Minor → Bool
is_removal remove_device = true
is_removal surprise_removal = true
is_removal other_minor = false

-- The ring of a context that goes.
abbrev pub drop_ring : Option RingObject → Driver → Driver
unfolding delete_ring
drop_ring none d = d
drop_ring (some o) d = delete_ring o d

-- What `SmartMicPnpHandler` does on a removal.
unfoldable pub remove_context : Context → Driver → Driver
unfolding delete_ring
remove_context c d =
    let d' = if c.interface_registered then fewer 1 d else d in
    record (fewer 1 (drop_ring c.ring d')) { context = none }

-- `SmartMicPnpHandler`
unfoldable pub pnp_handler : Minor → Driver → Answer × Driver
unfolding remove_context
pnp_handler m d = (
  to_port_cls,
  if is_removal m then elim d.context [ none ↦ d | some c ↦ remove_context c d ] else d,
)

-- `SmartMicStartDevice`, where `SmartMicInstallSubdevices` ends with a status: that status, and
-- whether the interface is enabled.
unfoldable pub start_device : Status → Driver → Status × Bool
start_device installed d = elim d.context [
  | none ↦ (installed, false)
  | some c ↦ (installed, nt_success installed && c.interface_registered)
]
