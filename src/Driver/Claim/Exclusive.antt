-- ===== src/Driver/Claim/Exclusive.antt =====
-- ring.cpp: the claim on the ring is exclusive.
use smartmic_windows.Prelude.{
  ℕ, ◌≡◌, ◌≢◌, refl, sym, ap, ◌∙◌, Bool, true, false, List, [], ◌∷◌, some, All, arith, ◌==◌, ne→eqb,
  ==_iff,
}
use smartmic_windows.Driver.Claim.{
  Mapping, Call, map_for, unmap_for, release_claim, call, caller, maps, unmaps, closes,
}
use smartmic_windows.Driver.Status.{success, device_busy, access_denied}

-- The state while process `p` holds the ring.
abbrev pub held : ℕ → Mapping
held p = record { has_mdl = true; claimed = true; user_va = true; client = some p }

abbrev pub calls : List Call → Mapping → Mapping
calls [] m = m
calls (c ∷ cs) m = calls cs (call c m)

first : (p : ℕ) (m : Mapping) → (map_for p true m).0 ≡ success → (map_for p true m).1 ≡ held p
unfolding map_for
first p m ok = ground arith

call-held : (p : ℕ) (c : Call) → caller c ≢ p → call c (held p) ≡ held p
unfolding map_for unmap_for release_claim call
call-held p (maps q can_map) h = refl
call-held p (unmaps q) h =
    let other : (p == q) ≡ false = ne→eqb p q (λ e. h (sym e)) in rw (other, call) refl
call-held p (closes q) h =
    let other : (p == q) ≡ false = ne→eqb p q (λ e. h (sym e)) in rw (other, call) refl

pub calls-held : (p : ℕ) (cs : List Call) → All (λ c. caller c ≢ p) cs → calls cs (held p) ≡ held p
calls-held p [] hs = refl
calls-held p (c ∷ cs) hs = ap (calls cs) (call-held p c hs.0) ∙ calls-held p cs hs.1

-- A process that has mapped the ring keeps it through any calls of other processes: it is still the
-- owner, any process that tries to map gets `device_busy`, and any other that tries to unmap gets
-- `access_denied`.
pub claim_is_exclusive :
    (p q : ℕ) (can_map : Bool) (cs : List Call) (m : Mapping)
    → (map_for p true m).0 ≡ success
    → All (λ c. caller c ≢ p) cs
    → q ≢ p
    → let m' = calls cs (map_for p true m).1 in
      (m'.client ≡ some p)
      × ((map_for q can_map m').0 ≡ device_busy)
      × ((unmap_for q m').0 ≡ access_denied)
unfolding map_for unmap_for
claim_is_exclusive p q can_map cs m ok others ne =
    let kept : calls cs (map_for p true m).1 ≡ held p =
      ap (calls cs) (first p m ok) ∙ calls-held p cs others in
    let other : (p == q) ≡ false = ne→eqb p q (λ e. ne (sym e)) in
    let refused : (unmap_for q (held p)).0 ≡ access_denied = rw other refl in
    (
      ap (λ m'. m'.client) kept,
      ap (λ m'. (map_for q can_map m').0) kept,
      ap (λ m'. (unmap_for q m').0) kept ∙ refused,
    )

-- Whoever has mapped the ring gives it up by unmapping or by closing its handle, and then any process
-- can map it.
pub released_and_mapped :
    (p q : ℕ) (m : Mapping)
    → (map_for p true m).0 ≡ success
    → let m' = (map_for p true m).1 in
      ((unmap_for p m').0 ≡ success)
      × ((map_for q true (call (unmaps p) m')).1 ≡ held q)
      × ((map_for q true (call (closes p) m')).1 ≡ held q)
unfolding map_for unmap_for release_claim call
released_and_mapped p q m ok =
    let start = first p m ok in
    let same : (p == p) ≡ true = (==_iff p p).1 refl in
    (
      ap (λ m'. (unmap_for p m').0) start ∙ rw same refl,
      ap (λ m'. (map_for q true (call (unmaps p) m')).1) start ∙ rw (same, call) refl,
      ap (λ m'. (map_for q true (call (closes p) m')).1) start ∙ rw (same, call) refl,
    )
