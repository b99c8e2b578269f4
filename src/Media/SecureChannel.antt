-- ===== src/Media/SecureChannel.antt =====
-- shared/media/src/secure_channel.cpp and secure_channel.h. The sodium calls are a parameter.
pub mod Sealed
pub mod Once
use smartmic_windows.Prelude.{
  ℕ, zero, suc, ◌+◌, ◌^◌, ◌≡◌, Bool, true, false, not, List, [], ◌∷◌, ◌++◌, Option, none, some,
  length, take, drop, ltb, add64, if◌then◌else◌,
}
use smartmic_windows.Media.Bytes.{le_bytes, le_value}
use smartmic_windows.Protocol.ReplayWindow.{ReplayWindow, accept, reset}

-- crypto_kdf_derive_from_key, crypto_secretbox_easy and crypto_secretbox_open_easy, over lists of
-- bytes. `seal_box` of a key, a nonce and a message is 16 bytes longer than the message, and opens
-- under the same key and nonce to the message.
pub record Sodium : Type 0 where
  pub ready : Bool
  pub derive : ℕ → ℕ → List ℕ → List ℕ
  pub seal_box : List ℕ → List ℕ → List ℕ → List ℕ
  pub open_box : List ℕ → List ℕ → List ℕ → Option (List ℕ)
  pub open-seal :
      (key nonce plain : List ℕ) → open_box key nonce (seal_box key nonce plain) ≡ some plain
  pub length-seal :
      (key nonce plain : List ℕ) → length (seal_box key nonce plain) ≡ 16 + length plain

pub data Direction : Type 0 where
  phone_to_pc pc_to_phone : Direction

abbrev pub secure_overhead : ℕ
secure_overhead = 24

abbrev pub replay_width : ℕ
replay_width = 1024

pub record SecureChannel : Type 0 where
  pub initialised : Bool
  pub send_key : List ℕ
  pub recv_key : List ℕ
  pub send_nonce_prefix : List ℕ
  pub recv_nonce_prefix : List ℕ
  pub counter : ℕ
  pub replay : ReplayWindow
  pub sealed : ℕ
  pub opened : ℕ
  pub auth_failures : ℕ
  pub replay_rejects : ℕ
  pub malformed : ℕ

-- `buildNonce`, with a prefix of the length that `init` derives.
abbrev pub build_nonce : List ℕ → ℕ → List ℕ
build_nonce prefix counter = prefix ++ le_bytes 8 counter

abbrev pub rejected : SecureChannel → ℕ
rejected ch = add64 (add64 ch.auth_failures ch.replay_rejects) ch.malformed

-- The identifiers of the sub-keys and of the nonce prefixes of each direction.
abbrev pub key_id : Direction → ℕ
key_id phone_to_pc = 1
key_id pc_to_phone = 2

abbrev pub nonce_id : Direction → ℕ
nonce_id phone_to_pc = 11
nonce_id pc_to_phone = 12

abbrev pub opposite : Direction → Direction
opposite phone_to_pc = pc_to_phone
opposite pc_to_phone = phone_to_pc

module _ (sodium : Sodium) where
  unfoldable pub init : List ℕ → Direction → SecureChannel → Bool × SecureChannel
  init session_key send ch = if not sodium.ready then (false, ch) else (
    true,
    record ch {
      initialised = true;
      send_key = sodium.derive 32 (key_id send) session_key;
      recv_key = sodium.derive 32 (key_id (opposite send)) session_key;
      send_nonce_prefix = sodium.derive 16 (nonce_id send) session_key;
      recv_nonce_prefix = sodium.derive 16 (nonce_id (opposite send)) session_key;
      counter = 0;
      replay = reset;
    },
  )

  unfoldable pub seal : List ℕ → SecureChannel → Option (List ℕ) × SecureChannel
  seal plain ch =
      if not ch.initialised
      then (none, ch)
      else (let nonce = build_nonce ch.send_nonce_prefix ch.counter in
          (
            some (le_bytes 8 ch.counter ++ sodium.seal_box ch.send_key nonce plain),
            record ch { counter = add64 ch.counter 1; sealed = add64 ch.sealed 1 },
          ))

  -- `open` once the box has or has not opened.
  open_fresh : Bool × ReplayWindow → List ℕ → SecureChannel → Option (List ℕ) × SecureChannel
  open_fresh (false, w) plain ch =
      (none, record ch { replay = w; replay_rejects = add64 ch.replay_rejects 1 })
  open_fresh (true, w) plain ch = (some plain, record ch { replay = w; opened = add64 ch.opened 1 })

  open_with : ℕ → Option (List ℕ) → SecureChannel → Option (List ℕ) × SecureChannel
  unfolding open_fresh
  open_with counter none ch = (none, record ch { auth_failures = add64 ch.auth_failures 1 })
  open_with counter (some plain) ch = open_fresh (accept replay_width ch.replay counter) plain ch

  unfoldable pub open_packet : List ℕ → SecureChannel → Option (List ℕ) × SecureChannel
  unfolding open_with
  open_packet packet ch =
      if not ch.initialised
      then (none, ch)
      else if ltb (length packet) secure_overhead
      then (none, record ch { malformed = add64 ch.malformed 1 })
      else (let counter = le_value (take 8 packet) in
          let nonce = build_nonce ch.recv_nonce_prefix counter in
          open_with counter (sodium.open_box ch.recv_key nonce (drop 8 packet)) ch)
