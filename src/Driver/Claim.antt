-- ===== src/Driver/Claim.antt =====
-- windows/driver/ring.cpp: which process holds the user mapping of the ring. Processes are
-- numbers; whether the memory manager can map is an argument.
pub mod Exclusive
use smartmic_windows.Prelude.{
  ℕ, Bool, true, false, ◌||◌, not, Option, none, some, ◌==◌, if◌then◌else◌,
}
use smartmic_windows.Driver.Status.{
  Status, success, device_not_ready, device_busy, insufficient_resources, access_denied,
}

-- `m_mdl`, `m_claimed`, `m_userVa` and `m_clientProcess`.
pub record Mapping : Type 0 where
  pub has_mdl : Bool
  pub claimed : Bool
  pub user_va : Bool
  pub client : Option ℕ

abbrev pub is_client : Option ℕ → ℕ → Bool
is_client none p = false
is_client (some q) p = q == p

-- `MapForCurrentProcess` by process `p`; `can_map` is whether MmMapLockedPagesSpecifyCache succeeds.
unfoldable pub map_for : ℕ → Bool → Mapping → Status × Mapping
map_for p can_map m =
    if not m.has_mdl
    then (device_not_ready, m)
    else if m.claimed
    then (device_busy, m)
    else if not can_map
    then (insufficient_resources, record m { claimed = false })
    else (success, record m { claimed = true; user_va = true; client = some p })

-- `UnmapForCurrentProcess` by process `p`.
unfoldable pub unmap_for : ℕ → Mapping → Status × Mapping
unmap_for p m =
    if not m.user_va || not m.has_mdl
    then (success, m)
    else if not (is_client m.client p)
    then (access_denied, m)
    else (success, record m { user_va = false; client = none; claimed = false })

-- `ReleaseClaimIfOwner`.
unfoldable pub release_claim : ℕ → Mapping → Mapping
release_claim p m =
    if is_client m.client p then record m { user_va = false; client = none; claimed = false } else m

-- The calls that processes make.
pub data Call : Type 0 where
  maps : ℕ → Bool → Call
  unmaps : ℕ → Call
  closes : ℕ → Call

abbrev pub caller : Call → ℕ
caller (maps p can_map) = p
caller (unmaps p) = p
caller (closes p) = p

unfoldable pub call : Call → Mapping → Mapping
unfolding map_for unmap_for release_claim
call (maps p can_map) m = (map_for p can_map m).1
call (unmaps p) m = (unmap_for p m).1
call (closes p) m = release_claim p m
