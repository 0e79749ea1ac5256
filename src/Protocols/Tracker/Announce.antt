-- ===== src/Protocols/Tracker/Announce.antt =====
-- The announce packet of tracker.rs against the layout of BEP 15, as a tracker reads it.
use fissure.Common.{
  ℕ, ◌+◌, ◌-◌, ◌*◌, ◌/◌, ◌%◌, ◌^◌, ◌<◌, ◌≡◌, refl, ◌∙◌, Option, some, none, List, ◌++◌, arith, ◌==◌,
  if◌then◌else◌, length, length-append, take, drop, take_exactly, drop_exactly, get_or, eq→==,
}
use fissure.Common.Bytes.{
  IsU32, as_u32_lt, to_be_bytes, u64_to_be_bytes, u16_to_be_bytes, u16_from_be_bytes, from_be_bytes,
  from_be_bytes-to_be_bytes, be_u32, be_u64,
}
use fissure.Protocols.Tracker.Requests.{announce_packet}

pub record Announce : Type 0 where
  pub connection_id : ℕ
  pub action : ℕ
  pub transaction_id : ℕ
  pub info_hash : List ℕ
  pub peer_id : List ℕ
  pub downloaded : ℕ
  pub left : ℕ
  pub uploaded : ℕ
  pub event : ℕ
  pub ip_address : ℕ
  pub key : ℕ
  pub num_want : ℕ
  pub port : ℕ

-- The fields by their offsets: the hash at 16, the peer's id at 36 and the numbers behind it at 56.
unfoldable pub read_announce : List ℕ → Option Announce
unfolding be_u32 be_u64 u16_from_be_bytes
read_announce bytes =
    let from_hash = drop 16 bytes in
    let from_peer = drop 20 from_hash in
    let numbers = drop 20 from_peer in
    if length bytes == 98
    then some (record {
      connection_id = be_u64 bytes 0;
      action = be_u32 bytes 8;
      transaction_id = be_u32 bytes 12;
      info_hash = take 20 from_hash;
      peer_id = take 20 from_peer;
      downloaded = be_u64 numbers 0;
      left = be_u64 numbers 8;
      uploaded = be_u64 numbers 16;
      event = be_u32 numbers 24;
      ip_address = be_u32 numbers 28;
      key = be_u32 numbers 32;
      num_want = be_u32 numbers 36;
      port = u16_from_be_bytes (get_or numbers 40 0) (get_or numbers 41 0);
    })
    else none

abbrev pub IsU64 : ℕ → Type 0
IsU64 n = n < 2 ^ 64

pub u32_joined :
    (n : ℕ)
    → IsU32 n
    → from_be_bytes (n / 2 ^ 24 % 256) (n / 2 ^ 16 % 256) (n / 2 ^ 8 % 256) (n % 256) ≡ n
u32_joined n h = from_be_bytes-to_be_bytes n ∙ as_u32_lt n h

pub u64_joined :
    (n : ℕ)
    → IsU64 n
    → from_be_bytes
            (n / 2 ^ 32 / 2 ^ 24 % 256)
            (n / 2 ^ 32 / 2 ^ 16 % 256)
            (n / 2 ^ 32 / 2 ^ 8 % 256)
            (n / 2 ^ 32 % 256)
          * 2 ^ 32
        + from_be_bytes (n / 2 ^ 24 % 256) (n / 2 ^ 16 % 256) (n / 2 ^ 8 % 256) (n % 256)
      ≡ n
u64_joined n h =
    rw (from_be_bytes-to_be_bytes (n / 2 ^ 32), from_be_bytes-to_be_bytes n) (omega arith)

pub be_u32-to_be_bytes : (n : ℕ) (rest : List ℕ) → IsU32 n → be_u32 (to_be_bytes n ++ rest) 0 ≡ n
unfolding be_u32 to_be_bytes
be_u32-to_be_bytes n rest h = u32_joined n h

pub be_u64-u64_to_be_bytes :
    (n : ℕ) (rest : List ℕ) → IsU64 n → be_u64 (u64_to_be_bytes n ++ rest) 0 ≡ n
unfolding be_u64 be_u32 u64_to_be_bytes to_be_bytes
be_u64-u64_to_be_bytes n rest h = u64_joined n h

u16_joined : (n : ℕ) → n < 65536 → u16_from_be_bytes (n / 2 ^ 8 % 256) (n % 256) ≡ n
unfolding u16_from_be_bytes
u16_joined n h = omega arith

pub length-announce_packet :
    (info_hash peer_id : List ℕ) (c_id t_id downloaded left uploaded key port : ℕ)
    → length info_hash ≡ 20
    → length peer_id ≡ 20
    → length (announce_packet info_hash peer_id c_id t_id downloaded left uploaded key port) ≡ 98
unfolding announce_packet to_be_bytes u64_to_be_bytes u16_to_be_bytes
length-announce_packet info_hash peer_id c_id t_id downloaded left uploaded key port hh hp =
    rw (length-append info_hash _, length-append peer_id _, hh, hp) refl

-- The announce packet has the 98 bytes that BEP 15 asks for, where the hash and the peer's id have
-- 20 bytes each and the numbers fit their widths, and a tracker reads at their offsets: the
-- connection id, action 1, the transaction id, the hash, the peer's id, the three counts, event 2
-- (started), the default address, the key, -1 for the number of peers, and the port.
pub read_announce-announce_packet :
    (info_hash peer_id : List ℕ) (c_id t_id downloaded left uploaded key port : ℕ)
    → length info_hash ≡ 20
    → length peer_id ≡ 20
    → IsU64 c_id
      × IsU32 t_id
      × IsU64 downloaded
      × IsU64 left
      × IsU64 uploaded
      × IsU32 key
      × (port < 65536)
    → read_announce (announce_packet info_hash peer_id c_id t_id downloaded left uploaded key port)
      ≡ some (record {
        connection_id = c_id;
        action = 1;
        transaction_id = t_id;
        info_hash = info_hash;
        peer_id = peer_id;
        downloaded = downloaded;
        left = left;
        uploaded = uploaded;
        event = 2;
        ip_address = 0;
        key = key;
        num_want = 2 ^ 32 - 1;
        port = port;
      })
unfolding read_announce announce_packet to_be_bytes u64_to_be_bytes u16_to_be_bytes be_u32 be_u64
read_announce-announce_packet info_hash peer_id c_id t_id downloaded left uploaded key port hh hp
      (fc, ft, fd, fl, fu, fk, fp) =
    rw
      (
        eq→== _ 98 (
            length-announce_packet info_hash peer_id c_id t_id downloaded left uploaded key port hh
              hp),
        take_exactly 20 info_hash _ hh,
        drop_exactly 20 info_hash _ hh,
        take_exactly 20 peer_id _ hp,
        drop_exactly 20 peer_id _ hp,
        u64_joined c_id fc,
        u64_joined downloaded fd,
        u64_joined left fl,
        u64_joined uploaded fu,
        u32_joined t_id ft,
        u32_joined key fk,
        u16_joined port fp,
      )
      refl
