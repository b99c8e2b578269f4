-- ===== src/Driver/Attach/Exclusive.antt =====
-- smartmic_driver_link.cpp: a second service cannot attach.
use smartmic_windows.Prelude.{
  ℕ, ◌≡◌, ◌≢◌, inl, inr, refl, sym, ap, subst, ◌∙◌, Bool, true, false, not, ◌||◌, List, [], ◌∷◌,
  Option, none, some, arith, ◌==◌, if◌then◌else◌, Option-cases, ==_iff,
}
use smartmic_windows.Driver.Status.{device_busy}
use smartmic_windows.Driver.Claim.{map_for}
use smartmic_windows.Driver.Claim.Exclusive.{held}
use smartmic_windows.Driver.Control.{
  Driver, Ioctl, completes, nothing, device_control, ring_ioctl, create, handle_private_ioctl,
  ring_of, map_answer, map_ring, lengths_fit, unmap_ring, map_result_bytes, is_control_name,
  set_tag, get_version, version_info_bytes,
}
use smartmic_windows.Driver.Control.Requests.{controls, cleans_up, closes, mapping_in, mapping_of}
use smartmic_windows.Driver.Control.Owner.{dispatches-held, device_control-tagged}
use smartmic_windows.Driver.Attach.{
  Link, Reply, opened, ioctl, request, close_handle, close_device, give_up, attach, negotiate,
  start_opened, start, reply_of, ring_matches, driver_version_in,
}

-- A map request is refused while another process holds the ring.
handle-busy :
    (p : ℕ) (q : Ioctl) (d : Driver)
    → mapping_of d ≡ some (held p)
    → q.code ≡ map_ring
    → lengths_fit map_result_bytes q ≡ true
    → (handle_private_ioctl q d).0 ≡ completes device_busy 0 nothing
unfolding handle_private_ioctl ring_ioctl map_for
handle-busy p q d mine code fit = elim (Option-cases (ring_of d.context)) [
  | inl gone ↦ ground (arith, gone, mine)
  | inr (o, there) ↦
      let at_ring : some o.mapping ≡ some (held p) = sym (ap mapping_in there) ∙ mine in
      let mapping : o.mapping ≡ held p = cc at_ring in
      let refused : map_for q.process q.can_map o.mapping ≡ (device_busy, held p) =
        ap (map_for q.process q.can_map) mapping in
      let answered : (map_answer (map_for q.process q.can_map o.mapping) o).0
          ≡ completes device_busy 0 nothing =
        ap (λ r. (map_answer r o).0) refused in
      ground (arith, there, code, fit, answered)
]

device_control-tag :
    (file : Option ℕ) (q : Ioctl) (d : Driver) → (device_control file q d).1.tagged ≡ d.tagged
unfolding device_control handle_private_ioctl
device_control-tag file q d = elim (Option-cases d.context) [
  | inl gone ↦ ground (arith, gone)
  | inr (c, there) ↦ elim (Option-cases c.ring) [
    | inl gone ↦ ground (arith, there, gone)
    | inr (o, here) ↦ ground (arith, there, here)
  ]
]

-- The start has failed: no handle is held, and `p` still holds the ring.
pub record Refused (p : ℕ) (r : Bool × Link × Driver) : Type 0 where
  pub failed : r.0 ≡ false
  pub no_handle : r.1.device ≡ none
  pub detached : r.1.attached ≡ false
  pub still_held : mapping_of r.2 ≡ some (held p)

module _ (equal : List ℕ → List ℕ → Bool) (port_cls : Ioctl → Reply) (p q : ℕ) (other : q ≢ p) where
  ioctl-held :
      (f : ℕ) (i : Ioctl) (d : Driver)
      → i.process ≡ q
      → mapping_of d ≡ some (held p)
      → mapping_of (ioctl equal port_cls f i d).1 ≡ some (held p)
  unfolding ioctl
  ioctl-held f i d own mine =
      dispatches-held equal p (controls (some f) i ∷ []) d ((λ e. other (sym own ∙ e)), tt) mine

  ioctl-tag : (f : ℕ) (i : Ioctl) (d : Driver) → (ioctl equal port_cls f i d).1.tagged ≡ d.tagged
  unfolding ioctl
  ioctl-tag f i d = device_control-tag (some f) i d

  close_handle-held :
      (f : ℕ) (d : Driver)
      → mapping_of d ≡ some (held p)
      → mapping_of (close_handle equal port_cls q f d) ≡ some (held p)
  unfolding close_handle
  close_handle-held f d mine =
      dispatches-held equal p (cleans_up q (some f) ∷ closes q (some f) ∷ []) d (other, (other, tt))
        mine

  give_up-Refused :
      (f : ℕ) (l : Link) (d : Driver)
      → l.device ≡ some f
      → mapping_of d ≡ some (held p)
      → Refused p (give_up equal port_cls q l d)
  unfolding give_up close_device
  give_up-Refused f l d here mine =
      let d' = (ioctl equal port_cls f (request equal port_cls q true unmap_ring 0) d).1 in
      let done : give_up equal port_cls q l d ≡ (
        false,
        record l { device = none; attached = false },
        close_handle equal port_cls q f d',
      ) =
        ground (arith, here) in
      let kept = ioctl-held f (request equal port_cls q true unmap_ring 0) d refl mine in
      record {
        failed = ap (λ r. r.0) done;
        no_handle = ap (λ r. r.1.device) done;
        detached = ap (λ r. r.1.attached) done;
        still_held = ap (λ r. mapping_of r.2) done ∙ close_handle-held f d' kept;
      }

  ioctl-busy :
      (f : ℕ) (can_map : Bool) (d : Driver)
      → d.tagged f ≡ true
      → mapping_of d ≡ some (held p)
      → (ioctl equal port_cls f (request equal port_cls q can_map map_ring map_result_bytes) d).0.ok
        ≡ false
  unfolding ioctl
  ioctl-busy f can_map d ours mine =
      let i = request equal port_cls q can_map map_ring map_result_bytes in
      let answered : (device_control (some f) i d).0 ≡ completes device_busy 0 nothing =
        ap (λ r. r.0) (device_control-tagged f i d ours) ∙ handle-busy p i d mine refl refl in
      ap (λ a. (reply_of equal port_cls i a).ok) answered

  either-Refused :
      (b c : Bool) {x y z : Bool × Link × Driver}
      → Refused p x
      → Refused p y
      → Refused p z
      → Refused p (if b then x else if c then y else z)
  either-Refused true c x y z = x
  either-Refused false true x y z = y
  either-Refused false false x y z = z

  module _ (can_map magic_right : Bool) (now : ℕ) where
    attach-Refused :
        (f : ℕ) (l : Link) (d : Driver)
        → l.device ≡ some f
        → d.tagged f ≡ true
        → mapping_of d ≡ some (held p)
        → Refused p (attach equal port_cls q can_map magic_right now f l d)
    unfolding attach
    attach-Refused f l d here ours mine =
        let i = request equal port_cls q can_map map_ring map_result_bytes in
        let d' = (ioctl equal port_cls f i d).1 in
        let busy = ioctl-busy f can_map d ours mine in
        let done : attach equal port_cls q can_map magic_right now f l d
            ≡ give_up equal port_cls q l d' =
          ground (arith, busy) in
        subst (Refused p) (sym done) (give_up-Refused f l d' here (ioctl-held f i d refl mine))

    negotiate-Refused :
        (f : ℕ) (l : Link) (d : Driver)
        → l.device ≡ some f
        → d.tagged f ≡ true
        → mapping_of d ≡ some (held p)
        → Refused p (negotiate equal port_cls q can_map magic_right now f l d)
    unfolding negotiate
    negotiate-Refused f l d here ours mine =
        let i = request equal port_cls q true get_version version_info_bytes in
        let (r, d') = ioctl equal port_cls f i d in
        let l' = record l { driver_version = driver_version_in r.output } in
        let kept = ioctl-held f i d refl mine in
        let tag : d'.tagged f ≡ true = ap (λ t. t f) (ioctl-tag f i d) ∙ ours in
        either-Refused (not r.ok || not (r.returned == version_info_bytes))
          (not (ring_matches r.output)) (give_up-Refused f l d' here kept)
          (give_up-Refused f l' d' here kept) (attach-Refused f l' d' here tag kept)

    -- While a process holds the ring, a service of another process that opens the control file cannot
    -- start: `start` returns false, the service holds no handle and no ring, and the ring still belongs to
    -- the process that holds it.
    pub start-Refused :
        (f : ℕ) (name : List ℕ) (l : Link) (d : Driver)
        → l.attached ≡ false
        → is_control_name equal name ≡ true
        → mapping_of d ≡ some (held p)
        → Refused p (start equal port_cls q can_map magic_right now (opened f name) l d)
    unfolding start start_opened create
    start-Refused f name l d idle control mine =
        let l' = record l { device = some f } in
        let d' = (create equal (some f) name d).1 in
        let begun : start equal port_cls q can_map magic_right now (opened f name) l d
            ≡ negotiate equal port_cls q can_map magic_right now f l' d' =
          ground (arith, idle) in
        let tagged : d' ≡ set_tag f true d = ground (arith, control) in
        let same : (f == f) ≡ true = (==_iff f f).1 refl in
        let tag : (set_tag f true d).tagged f ≡ true = rw same refl in
        let kept : mapping_of d' ≡ some (held p) = ap (λ t. mapping_of t) tagged ∙ mine in
        subst (Refused p) (sym begun)
          (negotiate-Refused f l' d' refl (ap (λ t. t.tagged f) tagged ∙ tag) kept)
