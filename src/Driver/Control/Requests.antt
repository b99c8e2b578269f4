-- ===== src/Driver/Control/Requests.antt =====
-- driver.cpp: which process the ring belongs to, over the requests of all processes.
use smartmic_windows.Prelude.{
  ℕ, ◌≡◌, inl, inr, refl, sym, ap, ◌∙◌, subst, Bool, true, ◌&&◌, List, [], ◌∷◌, Option, none, some,
  All, arith, ◌==◌, Bool-cases, Option-cases,
}
use smartmic_windows.Driver.Status.{Status, success}
use smartmic_windows.Driver.Claim.{Mapping, map_for, unmap_for, release_claim}
use smartmic_windows.Driver.Claim
use smartmic_windows.Driver.Claim.{maps, unmaps}
use smartmic_windows.Driver.Claim.Exclusive.{calls}
use smartmic_windows.Driver.Control.{
  Driver, RingObject, Ioctl, IoControlCode, Answer, create, cleanup, device_control, close,
  ring_ioctl, handle_private_ioctl, ring_of, with_ring, map_answer, release_of, is_our_file, untag,
  map_ring, unmap_ring, get_version, get_stats_code, other_code, lengths_fit, map_result_bytes,
  set_tag, is_control_name,
}

-- A request of a process, on a file object if it has one.
pub data Request : Type 0 where
  creates : ℕ → Option ℕ → List ℕ → Request
  cleans_up : ℕ → Option ℕ → Request
  controls : Option ℕ → Ioctl → Request
  closes : ℕ → Option ℕ → Request

abbrev pub requester : Request → ℕ
requester (creates p file name) = p
requester (cleans_up p file) = p
requester (controls file q) = q.process
requester (closes p file) = p

module _ (equal : List ℕ → List ℕ → Bool) where
  -- The dispatch routines that `DriverEntry` puts in place.
  abbrev pub dispatch : Request → Driver → Answer × Driver
  dispatch (creates p file name) d = create equal file name d
  dispatch (cleans_up p file) d = cleanup file d
  dispatch (controls file q) d = device_control file q d
  dispatch (closes p file) d = close p file d

  abbrev pub dispatches : List Request → Driver → Driver
  dispatches [] d = d
  dispatches (r ∷ rs) d = dispatches rs (dispatch r d).1

abbrev pub mapping_in : Option RingObject → Option Mapping
mapping_in none = none
mapping_in (some o) = some o.mapping

-- Who has mapped the driver's ring.
abbrev pub mapping_of : Driver → Option Mapping
mapping_of d = mapping_in (ring_of d.context)

abbrev pub calls_in : List Claim.Call → Option Mapping → Option Mapping
calls_in cs none = none
calls_in cs (some m) = some (calls cs m)

-- A change of the mapping is that of calls of one process on the claim.
abbrev pub IsCallsOf : ℕ → Option Mapping → Option Mapping → Type 0
IsCallsOf p m m' = (cs : List Claim.Call) × All (λ c. Claim.caller c ≡ p) cs × (m' ≡ calls_in cs m)

no_calls : (p : ℕ) (m m' : Option Mapping) → m' ≡ m → IsCallsOf p m m'
no_calls p none m' same = ([], tt, same)
no_calls p (some m) m' same = ([], tt, same)

map_answer-mapping : (r : Status × Mapping) (o : RingObject) → (map_answer r o).1.mapping ≡ r.1
map_answer-mapping (success, m) o = refl
map_answer-mapping (status, m) o = ground arith

-- A request on the ring is a call of the requesting process on the claim, or leaves it alone.
ring_ioctl-IsCallsOf :
    (q : Ioctl) (o : RingObject)
    → IsCallsOf q.process (some o.mapping) (some (ring_ioctl q o).1.mapping)
unfolding ring_ioctl Claim.call
ring_ioctl-IsCallsOf q o = go q.code refl
  where
    mapped :
        map_ring ≡ q.code
        → lengths_fit map_result_bytes q ≡ true
        → (ring_ioctl q o).1.mapping
          ≡ (map_answer (map_for q.process q.can_map o.mapping) o).1.mapping
    mapped e fit = ground (arith, e, fit)

    unmapped :
        unmap_ring ≡ q.code
        → ((q.in_len == 0) && (q.out_len == 0)) ≡ true
        → (ring_ioctl q o).1.mapping ≡ (unmap_for q.process o.mapping).1
    unmapped e fit = ground (arith, e, fit)

    go :
        (c : IoControlCode)
        → c ≡ q.code
        → IsCallsOf q.process (some o.mapping) (some (ring_ioctl q o).1.mapping)
    go get_version e = no_calls q.process (some o.mapping) _ (ground (arith, e))
    go map_ring e = elim (Bool-cases (lengths_fit map_result_bytes q)) [
      | inl fit ↦ (
        maps q.process q.can_map ∷ [],
        (refl, tt),
        ap some (mapped e fit ∙ map_answer-mapping (map_for q.process q.can_map o.mapping) o),
      )
      | inr unfit ↦ no_calls q.process (some o.mapping) _ (ap some (ground (arith, e, unfit)))
    ]
    go unmap_ring e = elim (Bool-cases ((q.in_len == 0) && (q.out_len == 0))) [
      | inl fit ↦ (unmaps q.process ∷ [], (refl, tt), ap some (unmapped e fit))
      | inr unfit ↦ no_calls q.process (some o.mapping) _ (ap some (ground (arith, e, unfit)))
    ]
    go get_stats_code e = no_calls q.process (some o.mapping) _ (ground (arith, e))
    go (other_code n) e = no_calls q.process (some o.mapping) _ (ground (arith, e))

pub with_ring-mapping :
    (d : Driver) (o o' : RingObject)
    → ring_of d.context ≡ some o
    → mapping_of (with_ring d o') ≡ some o'.mapping
with_ring-mapping d o o' there = elim (Option-cases d.context) [
  | inl gone ↦ ground (arith, gone, there)
  | inr (c, found) ↦ ground (arith, found)
]

pub handle-IsCallsOf :
    (q : Ioctl) (d : Driver)
    → IsCallsOf q.process (mapping_of d) (mapping_of (handle_private_ioctl q d).1)
unfolding handle_private_ioctl
handle-IsCallsOf q d = elim (Option-cases (ring_of d.context)) [
  | inl gone ↦ no_calls q.process (mapping_of d) _ (ground (arith, gone))
  | inr (o, there) ↦
      let before : mapping_of d ≡ some o.mapping = ap mapping_in there in
      let done : (handle_private_ioctl q d).1 ≡ with_ring d (ring_ioctl q o).1 =
        ground (arith, there) in
      let after : mapping_of (handle_private_ioctl q d).1 ≡ some (ring_ioctl q o).1.mapping =
        ap (λ t. mapping_of t) done ∙ with_ring-mapping d o (ring_ioctl q o).1 there in
      let (cs, callers, eq) = ring_ioctl-IsCallsOf q o in
      (cs, callers, after ∙ eq ∙ ap (calls_in cs) (sym before))
]

pub release_of-mapping :
    (p : ℕ) (d : Driver)
    → mapping_of (release_of p d) ≡ calls_in (Claim.closes p ∷ []) (mapping_of d)
unfolding release_of Claim.call
release_of-mapping p d = elim (Option-cases (ring_of d.context)) [
  | inl gone ↦
      let before : mapping_of d ≡ none = ap mapping_in gone in
      let done : release_of p d ≡ d = ground (arith, gone) in
      ap (λ t. mapping_of t) done ∙ before ∙ ap (calls_in (Claim.closes p ∷ [])) (sym before)
  | inr (o, there) ↦
      let o' = record o { mapping = release_claim p o.mapping } in
      let before : mapping_of d ≡ some o.mapping = ap mapping_in there in
      let done : release_of p d ≡ with_ring d o' = ground (arith, there) in
      ap (λ t. mapping_of t) done
      ∙ with_ring-mapping d o o' there
      ∙ ap (calls_in (Claim.closes p ∷ [])) (sym before)
]

untag-mapping : (file : Option ℕ) (d : Driver) → mapping_of (untag file d) ≡ mapping_of d
untag-mapping none d = refl
untag-mapping (some f) d = refl

pub close-mapping :
    (p : ℕ) (file : Option ℕ) (d : Driver)
    → mapping_of (close p file d).1 ≡ mapping_of (release_of p d)
unfolding close
close-mapping p file d = elim (Bool-cases (is_our_file file d)) [
  | inl ours ↦
      let done : (close p file d).1 ≡ untag file (release_of p d) = ground (arith, ours) in
      ap (λ t. mapping_of t) done ∙ untag-mapping file (release_of p d)
  | inr theirs ↦
      let done : (close p file d).1 ≡ release_of p d = ground (arith, theirs) in
      ap (λ t. mapping_of t) done
]

module _ (equal : List ℕ → List ℕ → Bool) where
  -- Each request acts on the mapping as calls of the requesting process on the claim.
  pub dispatch-IsCallsOf :
      (r : Request) (d : Driver)
      → IsCallsOf (requester r) (mapping_of d) (mapping_of (dispatch equal r d).1)
  unfolding create cleanup device_control
  dispatch-IsCallsOf (creates p none name) d = no_calls p (mapping_of d) _ refl
  dispatch-IsCallsOf (creates p (some f) name) d = elim (Bool-cases (is_control_name equal name)) [
    | inl ours ↦
        let done : (create equal (some f) name d).1 ≡ set_tag f true d = ground (arith, ours) in
        no_calls p (mapping_of d) _ (ap (λ t. mapping_of t) done)
    | inr theirs ↦
        let done : (create equal (some f) name d).1 ≡ d = ground (arith, theirs) in
        no_calls p (mapping_of d) _ (ap (λ t. mapping_of t) done)
  ]
  dispatch-IsCallsOf (cleans_up p file) d =
      let done : (cleanup file d).1 ≡ d = ground arith in
      no_calls p (mapping_of d) _ (ap (λ t. mapping_of t) done)
  dispatch-IsCallsOf (controls file q) d = elim (Bool-cases (is_our_file file d)) [
    | inl ours ↦
        let done : handle_private_ioctl q d ≡ device_control file q d = ground (arith, ours) in
        subst (λ (t : Answer × Driver). IsCallsOf q.process (mapping_of d) (mapping_of t.1)) done
          (handle-IsCallsOf q d)
    | inr theirs ↦
        let done : (device_control file q d).1 ≡ d = ground (arith, theirs) in
        no_calls q.process (mapping_of d) _ (ap (λ t. mapping_of t) done)
  ]
  dispatch-IsCallsOf (closes p file) d =
      (Claim.closes p ∷ [], (refl, tt), close-mapping p file d ∙ release_of-mapping p d)
