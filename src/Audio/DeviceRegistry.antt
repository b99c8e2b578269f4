-- ===== src/Audio/DeviceRegistry.antt =====
-- windows/audio-service/src/device_registry.cpp and device_registry.h. Identifiers are numbers; the
-- change callback, which only notifies, is left out.
pub mod Guards
use smartmic_windows.Prelude.{
  ℕ, Bool, true, false, ◌&&◌, ◌||◌, not, List, [], ◌∷◌, Option, none, some, ◌==◌, if◌then◌else◌,
}

pub record DeviceInfo : Type 0 where
  pub id : ℕ
  pub is_default : Bool
  pub is_smart_mic_endpoint : Bool

pub record DeviceRegistry : Type 0 where
  pub devices : List DeviceInfo
  pub preferred_id : Option ℕ
  pub auto_prefer : Bool

-- The first device that passes a test, as each `for` loop with a `return` looks for it.
abbrev pub first_where : (DeviceInfo → Bool) → List DeviceInfo → Option DeviceInfo
first_where test [] = none
first_where test (d ∷ ds) = let rest = first_where test ds in if test d then some d else rest

abbrev pub has_id : ℕ → List DeviceInfo → Bool
has_id id [] = false
has_id id (d ∷ ds) = if d.id == id then true else has_id id ds

abbrev pub is_empty : List DeviceInfo → Bool
is_empty [] = true
is_empty (d ∷ ds) = false

abbrev pub prefer_found : Option DeviceInfo → Option ℕ → Option ℕ
prefer_found none old = old
prefer_found (some d) old = some d.id

-- `setDevices`: with auto-prefer on, the first usable device that was not there before, if any were.
-- Usable, and not in a list of earlier devices that is not empty.
abbrev pub is_arrival : List DeviceInfo → DeviceInfo → Bool
is_arrival before d =
    not d.is_smart_mic_endpoint && (not (has_id d.id before) && not (is_empty before))

unfoldable pub set_devices : List DeviceInfo → DeviceRegistry → DeviceRegistry
set_devices ds r = record r {
  devices = ds;
  preferred_id =
      if r.auto_prefer
      then prefer_found (first_where (is_arrival r.devices) ds) r.preferred_id
      else r.preferred_id;
}

unfoldable pub available_inputs : List DeviceInfo → List DeviceInfo
available_inputs [] = []
available_inputs (d ∷ ds) =
    let rest = available_inputs ds in if d.is_smart_mic_endpoint then rest else d ∷ rest

-- `setPreferredInput`, for the device found under the identifier.
prefer : ℕ → Option DeviceInfo → DeviceRegistry → Bool × DeviceRegistry
prefer id none r = (false, r)
prefer id (some d) r =
    if d.is_smart_mic_endpoint then (false, r) else (true, record r { preferred_id = some id })

unfoldable pub set_preferred_input : ℕ → DeviceRegistry → Bool × DeviceRegistry
unfolding prefer
set_preferred_input id r = prefer id (first_where (λ d. d.id == id) r.devices) r

abbrev pub usable_under : Option ℕ → DeviceInfo → Bool
usable_under none d = false
usable_under (some id) d = (d.id == id) && not d.is_smart_mic_endpoint

unfoldable pub preferred_input : DeviceRegistry → Option DeviceInfo
preferred_input r = first_where (usable_under r.preferred_id) r.devices

abbrev pub or_else : Option DeviceInfo → Option DeviceInfo → Option DeviceInfo
or_else none other = other
or_else (some d) other = some d

unfoldable pub resolve_effective_input : DeviceRegistry → Option DeviceInfo
resolve_effective_input r = or_else (first_where (usable_under r.preferred_id) r.devices) (
    or_else (first_where (λ d. not d.is_smart_mic_endpoint && d.is_default) r.devices)
      (first_where (λ d. not d.is_smart_mic_endpoint) r.devices))

unfoldable pub set_auto_prefer_new_devices : Bool → DeviceRegistry → DeviceRegistry
set_auto_prefer_new_devices on r = record r { auto_prefer = on }
