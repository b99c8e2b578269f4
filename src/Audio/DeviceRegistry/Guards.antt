-- ===== src/Audio/DeviceRegistry/Guards.antt =====
-- device_registry.cpp: SmartMic's own endpoint is never an input, and something is found whenever
-- there is an input.
use smartmic_windows.Prelude.{
  ℕ, ◌≡◌, refl, Bool, true, false, ◌&&◌, not, List, [], ◌∷◌, Option, none, some, arith, ◌==◌, All,
  Bool-cases, inl, inr,
}
use smartmic_windows.Audio.DeviceRegistry.{
  DeviceInfo, DeviceRegistry, first_where, usable_under, or_else, available_inputs,
  resolve_effective_input, set_preferred_input, prefer,
}

-- Is a device there and SmartMic's own?
abbrev pub is_own : Option DeviceInfo → Bool
is_own none = false
is_own (some d) = d.is_smart_mic_endpoint

abbrev pub is_none : Option DeviceInfo → Bool
is_none none = true
is_none (some d) = false

abbrev pub is_usable : Option DeviceInfo → Bool
is_usable none = false
is_usable (some d) = not d.is_smart_mic_endpoint

first_where-none :
    (test : DeviceInfo → Bool) (ds : List DeviceInfo)
    → first_where test ds ≡ none
    → All (λ d. test d ≡ false) ds
first_where-none test [] e = tt
first_where-none test (x ∷ ds) e = elim (Bool-cases (test x)) [
  | inl yes_ ↦ ground arith
  | inr no_ ↦ (no_, first_where-none test ds (ground arith))
]

-- What is found under a test that no endpoint of SmartMic's passes is not SmartMic's.
first_where-not_own :
    (test : DeviceInfo → Bool) (ds : List DeviceInfo)
    → ((d : DeviceInfo) → test d ≡ true → d.is_smart_mic_endpoint ≡ false)
    → is_own (first_where test ds) ≡ false
first_where-not_own test [] h = refl
first_where-not_own test (x ∷ ds) h = elim (Bool-cases (test x)) [
  | inl yes_ ↦ rw yes_ (h x yes_)
  | inr no_ ↦ rw no_ (first_where-not_own test ds h)
]

or_else-not_own :
    (a b : Option DeviceInfo) → is_own a ≡ false → is_own b ≡ false → is_own (or_else a b) ≡ false
or_else-not_own none b h k = k
or_else-not_own (some d) b h k = h

or_else-none : (a b : Option DeviceInfo) → or_else a b ≡ none → b ≡ none
or_else-none none b e = e
or_else-none (some d) b e = ground arith

available_none :
    (ds : List DeviceInfo)
    → All (λ d. not d.is_smart_mic_endpoint ≡ false) ds
    → available_inputs ds ≡ []
unfolding available_inputs
available_none [] h = refl
available_none (x ∷ ds) h =
    let own : x.is_smart_mic_endpoint ≡ true = ground (arith, h.0) in rw own (available_none ds h.1)

usable-not_own :
    (id : Option ℕ) (d : DeviceInfo) → usable_under id d ≡ true → d.is_smart_mic_endpoint ≡ false
usable-not_own none d e = ground arith
usable-not_own (some id) d e = ground arith

-- Whatever is preferred and whatever the devices are, the input that is resolved is never SmartMic's
-- own endpoint, and none is resolved only when no device is available as an input.
pub resolve_lem :
    (r : DeviceRegistry)
    → (is_own (resolve_effective_input r) ≡ false)
      × (resolve_effective_input r ≡ none → available_inputs r.devices ≡ [])
unfolding resolve_effective_input
resolve_lem r = (
  or_else-not_own preferred (or_else default_one any_one)
      (first_where-not_own (usable_under r.preferred_id) r.devices (usable-not_own r.preferred_id))
      (or_else-not_own default_one any_one
        (first_where-not_own (λ d. not d.is_smart_mic_endpoint && d.is_default) r.devices
          λ d e. ground arith)
        (first_where-not_own (λ d. not d.is_smart_mic_endpoint) r.devices λ d e. ground arith)),
  λ e. available_none r.devices (
      first_where-none (λ d. not d.is_smart_mic_endpoint) r.devices
        (or_else-none default_one any_one
          (or_else-none preferred (or_else default_one any_one) e))),
)
  where
    preferred : Option DeviceInfo
    preferred = first_where (usable_under r.preferred_id) r.devices

    default_one : Option DeviceInfo
    default_one = first_where (λ d. not d.is_smart_mic_endpoint && d.is_default) r.devices

    any_one : Option DeviceInfo
    any_one = first_where (λ d. not d.is_smart_mic_endpoint) r.devices

-- Preferring an identifier succeeds exactly when the first device that has it is there and is not
-- SmartMic's own; then it becomes the preferred one, and otherwise nothing changes. The devices stay
-- as they are.
pub set_preferred_input_lem :
    (id : ℕ) (r : DeviceRegistry)
    → let (ok, r') = set_preferred_input id r in
      (ok ≡ is_usable (first_where (λ d. d.id == id) r.devices))
      × (ok ≡ false → r' ≡ r)
      × (ok ≡ true → r'.preferred_id ≡ some id)
      × (r'.devices ≡ r.devices)
unfolding set_preferred_input prefer
set_preferred_input_lem id r = go (first_where (λ d. d.id == id) r.devices)
  where
    go :
        (o : Option DeviceInfo)
        → let (ok, r') = prefer id o r in
          (ok ≡ is_usable o)
          × (ok ≡ false → r' ≡ r)
          × (ok ≡ true → r'.preferred_id ≡ some id)
          × (r'.devices ≡ r.devices)
    go none = (refl, λ e. refl, λ e. ground arith, refl)
    go (some d) = elim (Bool-cases d.is_smart_mic_endpoint) [
      | inl own ↦ rw own (refl, λ e. refl, λ e. ground arith, refl)
      | inr usable ↦ rw usable (refl, λ e. ground arith, λ e. refl, refl)
    ]
