-- ===== src/Driver/Life/Balance.antt =====
-- driver.cpp: what the device allocates it frees.
use smartmic_windows.Prelude.{
  ℕ, ◌+◌, ◌≡◌, refl, sym, ap, subst, ◌∙◌, Bool, true, false, List, [], ◌∷◌, Option, none, some, inl,
  inr, arith, if◌then◌else◌, Option-cases, Bool-cases,
}
use smartmic_windows.Driver.Status.{nt_success}
use smartmic_windows.Driver.Claim.{map_for, unmap_for, release_claim}
use smartmic_windows.Driver.Control.{
  Driver, Context, RingObject, Ioctl, ring_of, with_ring, ring_ioctl, handle_private_ioctl,
  device_control, release_of, close, create, cleanup, is_our_file,
}
use smartmic_windows.Driver.Control.Requests.{
  Request, creates, cleans_up, controls, closes, dispatch, dispatches,
}
use smartmic_windows.Driver.Life.{
  Answers, Minor, is_removal, add_device, add_ring, add_adapter, delete_ring, initialize,
  pnp_handler, remove_context, cleanup_ring,
}

-- The blocks that a ring object, and a context, have to free.
abbrev ring_blocks : RingObject → ℕ
ring_blocks o = 1 + (if o.mapping.has_mdl then 1 else 0) + (if o.has_memory then 1 else 0)

abbrev ring_part : Option RingObject → ℕ
ring_part none = 0
ring_part (some o) = ring_blocks o

abbrev context_blocks : Option Context → ℕ
context_blocks none = 0
context_blocks (some c) = 1 + (if c.interface_registered then 1 else 0) + ring_part c.ring

-- As many blocks, of which as many belong to the context.
record Keeps (d d' : Driver) : Type 0 where
  blocks : d'.blocks ≡ d.blocks
  owned : context_blocks d'.context ≡ context_blocks d.context

with_ring-Keeps :
    (d : Driver) (o o' : RingObject)
    → ring_of d.context ≡ some o
    → ring_blocks o' ≡ ring_blocks o
    → Keeps d (with_ring d o')
with_ring-Keeps d o o' there same = elim (Option-cases d.context) [
  | inl gone ↦ ground (arith, gone, there)
  | inr (c, found) ↦
      let at_ring : c.ring ≡ some o = sym (ap ring_of found) ∙ there in
      record { blocks = ground (arith, found); owned = ground (arith, found, at_ring, same) }
]

ring_ioctl-blocks : (q : Ioctl) (o : RingObject) → ring_blocks (ring_ioctl q o).1 ≡ ring_blocks o
unfolding ring_ioctl map_for unmap_for
ring_ioctl-blocks q o = ground arith

handle-Keeps : (q : Ioctl) (d : Driver) → Keeps d (handle_private_ioctl q d).1
unfolding handle_private_ioctl
handle-Keeps q d = elim (Option-cases (ring_of d.context)) [
  | inl gone ↦ record { blocks = ground (arith, gone); owned = ground (arith, gone) }
  | inr (o, there) ↦
      let done : (handle_private_ioctl q d).1 ≡ with_ring d (ring_ioctl q o).1 =
        ground (arith, there) in
      subst (Keeps d) (sym done)
        (with_ring-Keeps d o (ring_ioctl q o).1 there (ring_ioctl-blocks q o))
]

release_of-Keeps : (p : ℕ) (d : Driver) → Keeps d (release_of p d)
unfolding release_of release_claim
release_of-Keeps p d = elim (Option-cases (ring_of d.context)) [
  | inl gone ↦ record { blocks = ground (arith, gone); owned = ground (arith, gone) }
  | inr (o, there) ↦
      let o' = record o { mapping = release_claim p o.mapping } in
      let done : release_of p d ≡ with_ring d o' = ground (arith, there) in
      subst (Keeps d) (sym done) (with_ring-Keeps d o o' there (ground arith))
]

module _ (equal : List ℕ → List ℕ → Bool) where
  dispatch-Keeps : (r : Request) (d : Driver) → Keeps d (dispatch equal r d).1
  unfolding create cleanup device_control close
  dispatch-Keeps (creates p none name) d = record { blocks = refl; owned = refl }
  dispatch-Keeps (creates p (some f) name) d = record {
    blocks = ground arith;
    owned = ground arith;
  }
  dispatch-Keeps (cleans_up p file) d = record { blocks = ground arith; owned = ground arith }
  dispatch-Keeps (controls file q) d = elim (Bool-cases (is_our_file file d)) [
    | inl ours ↦
        let done : (device_control file q d).1 ≡ (handle_private_ioctl q d).1 =
          ground (arith, ours) in
        subst (Keeps d) (sym done) (handle-Keeps q d)
    | inr theirs ↦ record { blocks = ground (arith, theirs); owned = ground (arith, theirs) }
  ]
  dispatch-Keeps (closes p none) d = release_of-Keeps p d
  dispatch-Keeps (closes p (some f)) d =
      let kept = release_of-Keeps p d in
      record { blocks = ground (arith, kept.blocks); owned = ground (arith, kept.owned) }

  dispatches-Keeps : (rs : List Request) (d : Driver) → Keeps d (dispatches equal rs d)
  dispatches-Keeps [] d = record { blocks = refl; owned = refl }
  dispatches-Keeps (r ∷ rs) d =
      let one = dispatch-Keeps r d in
      let rest = dispatches-Keeps rs (dispatch equal r d).1 in
      record { blocks = rest.blocks ∙ one.blocks; owned = rest.owned ∙ one.owned }

  add_device-fails :
      (a : Answers) (d : Driver)
      → d.context ≡ none
      → nt_success (add_device a d).0 ≡ false
      → (add_device a d).1 ≡ d
  unfolding add_device add_ring add_adapter delete_ring initialize cleanup_ring
  add_device-fails a d fresh failed = ground arith

  add_device-owns :
      (a : Answers) (d : Driver)
      → d.context ≡ none
      → nt_success (add_device a d).0 ≡ true
      → (add_device a d).1.blocks ≡ d.blocks + context_blocks (add_device a d).1.context
  unfolding add_device add_ring add_adapter delete_ring initialize cleanup_ring
  add_device-owns a d fresh done = ground arith

  removal-frees :
      (m : Minor) (d : Driver) (base : ℕ)
      → is_removal m ≡ true
      → d.blocks ≡ base + context_blocks d.context
      → ((pnp_handler m d).1.context ≡ none) × ((pnp_handler m d).1.blocks ≡ base)
  unfolding pnp_handler remove_context delete_ring cleanup_ring
  removal-frees m d base removal owned = elim (Option-cases d.context) [
    | inl gone ↦ (ground (arith, removal, gone), ground (arith, removal, gone, owned))
    | inr (c, found) ↦ elim (Option-cases c.ring) [
      | inl gone ↦
          (ground (arith, removal, found, gone), ground (arith, removal, found, gone, owned))
      | inr (o, here) ↦
          (ground (arith, removal, found, here), ground (arith, removal, found, here, owned))
    ]
  ]

  -- A failure of `SmartMicAddDevice` leaves no context and nothing allocated, whichever of its calls
  -- failed; and where it succeeds, the removal of the device after any requests of any processes, also by
  -- surprise, leaves no context and as many blocks allocated as there were before.
  pub device_leaves_nothing :
      (a : Answers) (m : Minor) (rs : List Request) (d : Driver)
      → d.context ≡ none
      → is_removal m ≡ true
      → let (status, d') = add_device a d in
        let removed = (pnp_handler m (dispatches equal rs d')).1 in
        (nt_success status ≡ false → d' ≡ d)
        × (nt_success status ≡ true → (removed.context ≡ none) × (removed.blocks ≡ d.blocks))
  device_leaves_nothing a m rs d fresh removal = (
    add_device-fails a d fresh,
    λ done.
        let d' = (add_device a d).1 in
        let kept = dispatches-Keeps rs d' in
        let owned : (dispatches equal rs d').blocks
            ≡ d.blocks + context_blocks (dispatches equal rs d').context =
          omega (arith, kept.blocks, kept.owned, add_device-owns a d fresh done) in
        removal-frees m (dispatches equal rs d') d.blocks removal owned,
  )
