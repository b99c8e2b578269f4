-- ===== src/Driver/Adapter.antt =====
-- windows/driver/adapter.cpp: the two subdevices are registered and wired together. What PortCls
-- answers is an argument; the references that the driver holds are counted.
use smartmic_windows.Prelude.{ℕ, ◌+◌, ◌-◌, ◌≡◌, Bool, true, false, not, if◌then◌else◌, arith}
use smartmic_windows.Driver.Status.{Status, device_not_ready, nt_success}

-- How the calls that `InstallSubdevice` makes end.
pub record Answers : Type 0 where
  pub port_made : Status
  pub miniport_made : Status
  pub port_initialised : Status
  pub registered : Status

-- The references that the driver holds: to ports, and to miniports.
pub record References : Type 0 where
  pub ports : ℕ
  pub miniports : ℕ

abbrev pub release_port : References → References
release_port r = record r { ports = r.ports - 1 }

abbrev pub take_port : References → References
take_port r = record r { ports = r.ports + 1 }

abbrev pub release_miniport : References → References
release_miniport r = record r { miniports = r.miniports - 1 }

abbrev pub take_miniport : References → References
take_miniport r = record r { miniports = r.miniports + 1 }

-- `InstallSubdevice` from `port->Init` on.
unfoldable pub install_port : Answers → References → Status × References
install_port a r =
    let status = if nt_success a.port_initialised then a.registered else a.port_initialised in
    let r' = release_miniport r in (status, if nt_success status then r' else release_port r')

-- `InstallSubdevice`, which on success passes its reference to the port on to its caller.
unfoldable pub install_subdevice : Answers → References → Status × References
unfolding install_port
install_subdevice a r =
    if not (nt_success a.port_made)
    then (a.port_made, r)
    else if not (nt_success a.miniport_made)
    then (a.miniport_made, release_port (take_port r))
    else install_port a (take_miniport (take_port r))

-- `SmartMicInstallSubdevices` from the second subdevice on.
unfoldable pub install_wave : Answers → Status → References → Status × References
unfolding install_subdevice
install_wave wave connected r =
    let (status, r') = install_subdevice wave r in
    if not (nt_success status)
    then (status, release_port r')
    else (connected, release_port (release_port r'))

-- `SmartMicInstallSubdevices`, where the context and its ring are there or not.
unfoldable pub install_subdevices :
    Bool → Answers → Answers → Status → References → Status × References
unfolding install_subdevice install_wave
install_subdevices has_ring topology wave connected r =
    if not has_ring
    then (device_not_ready, r)
    else (let (status, r') = install_subdevice topology r in
        if not (nt_success status) then (status, r') else install_wave wave connected r')

install_subdevice-keeps :
    (a : Answers) (r : References)
    → let (status, r') = install_subdevice a r in
      (nt_success status ≡ false → r' ≡ r) × (nt_success status ≡ true → r' ≡ take_port r)
unfolding install_subdevice install_port
install_subdevice-keeps a r = ground arith

-- However the calls of PortCls end, the driver holds as many references to ports and miniports
-- after `SmartMicInstallSubdevices` as before.
pub install_subdevices-keeps :
    (has_ring : Bool) (topology wave : Answers) (connected : Status) (r : References)
    → (install_subdevices has_ring topology wave connected r).1 ≡ r
unfolding install_subdevices install_wave
install_subdevices-keeps has_ring topology wave connected r = ground (
  arith,
  install_subdevice-keeps topology r,
  install_subdevice-keeps wave r,
  install_subdevice-keeps wave (take_port r),
)
