-- ===== src/Protocols/Tracker/Query.antt =====
-- The hash of the torrent in the query string of tracker.rs, as a tracker reads it back.
use Prim.Native.Char.{code}
use Prim.Native.String.{String}
use fissure.Common.{
  ℕ, ◌+◌, ◌*◌, ◌/◌, ◌%◌, ◌<◌, ◌≡◌, refl, List, [], ◌∷◌, ◌++◌, arith, ◌==◌, if◌then◌else◌, drop, All,
  sym, ap,
}
use fissure.Common.Bytes.{IsByte}
use fissure.Common.Text.{
  as_bytes, as_bytes-append, as_bytes-hex_byte, digit, digit_value, digit_value-digit, format,
  hex_byte, utf8_ascii,
}
use fissure.Protocols.Tracker.Requests.{TrackerRequest, encoded_info_hash, generate_query_string}

-- The bytes that a run of `%XX` stands for, and what comes behind it.
unfoldable pub read_escaped : List ℕ → List ℕ × List ℕ
read_escaped (p ∷ x ∷ y ∷ rest) =
    let more = read_escaped rest in
    if p == b'%'
    then ((digit_value x * 16 + digit_value y) ∷ more.0, more.1)
    else ([], p ∷ x ∷ y ∷ rest)
read_escaped rest = ([], rest)

digits_value :
    (b : ℕ)
    → IsByte b
    → digit_value (code (digit (b / 16))) * 16 + digit_value (code (digit (b % 16))) ≡ b
digits_value b h =
    rw (digit_value-digit (b / 16) (omega arith), digit_value-digit (b % 16) (omega arith))
      (omega arith)

-- A text that is no escape, as what follows the hash in a query.
abbrev IsBehind : List ℕ → Type 0
IsBehind rest = read_escaped rest ≡ ([], rest)

pub read_escaped-encoded_info_hash :
    (h rest : List ℕ)
    → All IsByte h
    → IsBehind rest
    → read_escaped (as_bytes (encoded_info_hash h) ++ rest) ≡ (h, rest)
unfolding read_escaped encoded_info_hash as_bytes
read_escaped-encoded_info_hash [] rest all e = e
read_escaped-encoded_info_hash (b ∷ h) rest all e =
    rw
      (
        utf8_ascii 37 (omega arith),
        as_bytes-hex_byte b (encoded_info_hash h),
        digits_value b all.0,
        read_escaped-encoded_info_hash h rest all.1 e,
      )
      refl

-- The parameters behind the hash.
abbrev pub other_parameters : (String → String) → TrackerRequest → String
unfolding format
other_parameters encode r = format (
    "&peer_id="
    ∷ encode r.peer_id
    ∷ "&port="
    ∷ r.port
    ∷ "&uploaded="
    ∷ r.uploaded
    ∷ "&downloaded="
    ∷ r.downloaded
    ∷ "&left="
    ∷ r.left
    ∷ "&compact=1&event=started"
    ∷ [])

amp_IsBehind : (rest : List ℕ) → IsBehind (as_bytes "&peer_id=" ++ rest)
unfolding read_escaped as_bytes fissure.Common.Text.utf8
amp_IsBehind rest = refl

-- A tracker that reads the query string gets the torrent's hash back, whatever bytes it has: behind
-- `info_hash=` stands one escape `%XX` for each byte, and then the other parameters.
pub read_escaped-generate_query_string :
    (encode : String → String) (r : TrackerRequest)
    → All IsByte r.info_hash
    → read_escaped (drop 10 (as_bytes (generate_query_string encode r)))
      ≡ (r.info_hash, as_bytes (other_parameters encode r))
unfolding generate_query_string format as_bytes fissure.Common.Text.utf8
read_escaped-generate_query_string encode r all =
    rw (as_bytes-append "info_hash=" _, as_bytes-append (encoded_info_hash r.info_hash) _)
      (read_escaped-encoded_info_hash r.info_hash _ all
        (rw (as_bytes-append "&peer_id=" _) (amp_IsBehind _)))
