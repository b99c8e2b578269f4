-- ===== src/Driver/Control/Owner.antt =====
-- driver.cpp: the ring belongs to one process at a time.
use smartmic_windows.Prelude.{
  ℕ, ◌≡◌, ◌≢◌, inl, inr, refl, sym, ap, ◌∙◌, Bool, true, false, List, [], ◌∷◌, Option, none, some,
  All, arith, ◌==◌, Bool-cases, Option-cases, ==_iff,
}
use smartmic_windows.Driver.Status.{success}
use smartmic_windows.Driver.Claim.{Mapping, map_for, unmap_for, release_claim}
use smartmic_windows.Driver.Claim
use smartmic_windows.Driver.Claim.{maps, unmaps}
use smartmic_windows.Driver.Claim.Exclusive.{held, calls, calls-held}
use smartmic_windows.Driver.Control.{
  Driver, RingObject, Ioctl, Answer, completes, mapped, device_control, close, ring_ioctl,
  handle_private_ioctl, ring_of, with_ring, map_answer, is_our_file, map_ring, lengths_fit,
  map_result_bytes,
}
use smartmic_windows.Driver.Control.Requests.{
  Request, controls, requester, dispatches, mapping_in, mapping_of, calls_in, dispatch-IsCallsOf,
  with_ring-mapping, release_of-mapping, close-mapping, dispatch,
}

-- The answer that a mapping gets.
abbrev pub got_mapped : Answer
got_mapped = completes success map_result_bytes mapped

map_answer-held :
    (p : ℕ) (can_map : Bool) (o : RingObject)
    → (map_answer (map_for p can_map o.mapping) o).0 ≡ got_mapped
    → (map_answer (map_for p can_map o.mapping) o).1.mapping ≡ held p
unfolding map_for
map_answer-held p can_map o ok = ground arith

ring_ioctl-held :
    (q : Ioctl) (o : RingObject)
    → (ring_ioctl q o).0 ≡ got_mapped
    → (ring_ioctl q o).1.mapping ≡ held q.process
unfolding ring_ioctl
ring_ioctl-held q o ok = ground (arith, map_answer-held q.process q.can_map o)

handle-held :
    (q : Ioctl) (d : Driver)
    → (handle_private_ioctl q d).0 ≡ got_mapped
    → mapping_of (handle_private_ioctl q d).1 ≡ some (held q.process)
unfolding handle_private_ioctl
handle-held q d ok = elim (Option-cases (ring_of d.context)) [
  | inl gone ↦ ground (arith, gone, ok)
  | inr (o, there) ↦
      let done : (handle_private_ioctl q d).1 ≡ with_ring d (ring_ioctl q o).1 =
        ground (arith, there) in
      let answered : (ring_ioctl q o).0 ≡ got_mapped = ground (arith, there, ok) in
      ap (λ t. mapping_of t) done
      ∙ with_ring-mapping d o (ring_ioctl q o).1 there
      ∙ ap some (ring_ioctl-held q o answered)
]

device_control-held :
    (file : Option ℕ) (q : Ioctl) (d : Driver)
    → (device_control file q d).0 ≡ got_mapped
    → mapping_of (device_control file q d).1 ≡ some (held q.process)
unfolding device_control
device_control-held file q d ok = elim (Bool-cases (is_our_file file d)) [
  | inl ours ↦
      let done : device_control file q d ≡ handle_private_ioctl q d = ground (arith, ours) in
      ap (λ t. mapping_of t.1) done ∙ handle-held q d (sym (ap (λ t. t.0) done) ∙ ok)
  | inr theirs ↦ ground (arith, theirs, ok)
]

held-injective : {p q : ℕ} → some (held p) ≡ some (held q) → p ≡ q
held-injective e = cc

pub device_control-tagged :
    (f : ℕ) (q : Ioctl) (d : Driver)
    → d.tagged f ≡ true
    → device_control (some f) q d ≡ handle_private_ioctl q d
unfolding device_control
device_control-tagged f q d ours = ground (arith, ours)

module _ (equal : List ℕ → List ℕ → Bool) where
  pub dispatches-held :
      (p : ℕ) (rs : List Request) (d : Driver)
      → All (λ r. requester r ≢ p) rs
      → mapping_of d ≡ some (held p)
      → mapping_of (dispatches equal rs d) ≡ some (held p)
  dispatches-held p [] d others mine = mine
  dispatches-held p (r ∷ rs) d (other, others) mine =
      let (cs, callers, eq) = dispatch-IsCallsOf equal r d in
      let kept : calls cs (held p) ≡ held p = calls-held p cs (not_mine cs callers) in
      dispatches-held p rs (dispatch equal r d).1 others (eq ∙ ap (calls_in cs) mine ∙ ap some kept)
    where
      not_mine :
          (cs : List Claim.Call)
          → All (λ c. Claim.caller c ≡ requester r) cs
          → All (λ c. Claim.caller c ≢ p) cs
      not_mine [] hs = tt
      not_mine (c ∷ cs) (h, hs) = ((λ e. other (sym h ∙ e)), not_mine cs hs)

  -- A process that has mapped the ring by a device-control request keeps it through any requests of
  -- other processes, on any file objects and with any parameters: it is still the owner, no request
  -- of another process is answered with a mapping, and none takes the ring from it.
  pub requests_exclusive :
      (file file' : Option ℕ) (q q' : Ioctl) (rs : List Request) (d : Driver)
      → (device_control file q d).0 ≡ got_mapped
      → All (λ r. requester r ≢ q.process) rs
      → q'.process ≢ q.process
      → let d' = dispatches equal rs (device_control file q d).1 in
        (mapping_of d' ≡ some (held q.process))
        × ((device_control file' q' d').0 ≢ got_mapped)
        × (mapping_of (device_control file' q' d').1 ≡ some (held q.process))
  requests_exclusive file file' q q' rs d ok others other =
      let mine = device_control-held file q d ok in
      let kept = dispatches-held q.process rs (device_control file q d).1 others mine in
      let d' = dispatches equal rs (device_control file q d).1 in
      let after = dispatches-held q.process (controls file' q' ∷ []) d' (other, tt) kept in
      (
        kept,
        λ taken. other (held-injective (sym (device_control-held file' q' d' taken) ∙ after)),
        after,
      )

-- The mapping while nobody holds the ring.
abbrev unheld : Mapping
unheld = record { has_mdl = true; claimed = false; user_va = false; client = none }

close-unheld :
    (p : ℕ) (file : Option ℕ) (d : Driver)
    → mapping_of d ≡ some (held p)
    → mapping_of (close p file d).1 ≡ some unheld
unfolding release_claim Claim.call
close-unheld p file d mine =
    let same : (p == p) ≡ true = (==_iff p p).1 refl in
    let freed : Claim.call (Claim.closes p) (held p) ≡ unheld = ground (arith, same) in
    close-mapping p file d
    ∙ release_of-mapping p d
    ∙ ap (calls_in (Claim.closes p ∷ [])) mine
    ∙ ap some freed

map_for-unheld : (p : ℕ) → map_for p true unheld ≡ (success, held p)
unfolding map_for
map_for-unheld p = refl

handle-unheld :
    (q : Ioctl) (d : Driver)
    → mapping_of d ≡ some unheld
    → q.code ≡ map_ring
    → lengths_fit map_result_bytes q ≡ true
    → q.can_map ≡ true
    → (handle_private_ioctl q d).0 ≡ got_mapped
unfolding handle_private_ioctl ring_ioctl
handle-unheld q d free code fit can = elim (Option-cases (ring_of d.context)) [
  | inl gone ↦ ground (arith, gone, free)
  | inr (o, there) ↦
      let at_ring : some o.mapping ≡ some unheld = sym (ap mapping_in there) ∙ free in
      let mapping : o.mapping ≡ unheld = cc at_ring in
      let granted : map_for q.process q.can_map o.mapping ≡ (success, held q.process) =
        ap (map_for q.process q.can_map) mapping
        ∙ ap (λ b. map_for q.process b unheld) can
        ∙ map_for-unheld q.process in
      let answered : (map_answer (map_for q.process q.can_map o.mapping) o).0 ≡ got_mapped =
        ap (λ r. (map_answer r o).0) granted in
      ground (arith, there, code, fit, answered)
]

-- A process that holds the ring and closes a file object, whichever it is, has given the ring up: a
-- request to map it, of any process, with the right lengths on a control handle, is answered with a
-- mapping where the memory can be mapped.
pub close_gives_up :
    (p g : ℕ) (file : Option ℕ) (q : Ioctl) (d : Driver)
    → mapping_of d ≡ some (held p)
    → q.code ≡ map_ring
    → q.in_len ≡ 0
    → q.out_len ≡ map_result_bytes
    → q.has_buffer ≡ true
    → q.can_map ≡ true
    → (close p file d).1.tagged g ≡ true
    → let (answer, d') = device_control (some g) q (close p file d).1 in
      (answer ≡ got_mapped) × (mapping_of d' ≡ some (held q.process))
close_gives_up p g file q d mine code in_len out_len buffer can ours =
    let d' = (close p file d).1 in
    let fit : lengths_fit map_result_bytes q ≡ true = ground (arith, in_len, out_len, buffer) in
    let answered = handle-unheld q d' (close-unheld p file d mine) code fit can in
    let done = device_control-tagged g q d' ours in
    (ap (λ t. t.0) done ∙ answered, ap (λ t. mapping_of t.1) done ∙ handle-held q d' answered)
