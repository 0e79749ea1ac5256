-- ===== src/Common/Text.antt =====
-- `String` of the standard library: its bytes, decimal and hexadecimal text, and the test for a
-- character.
use Prim.Native.Char.{Char, code}
use Prim.Native.String.append as append_laws
use Prim.Native.String.{String, ◌++◌ as append}
use fissure.Common.{
  ℕ, zero, suc, ◌+◌, ◌/◌, ◌%◌, ◌<◌, ◌≡◌, refl, ◌-◌, Bool, false, ◌||◌, List, [], ◌∷◌, ◌++◌, arith,
  ltb, get_or, ◌==◌, if◌then◌else◌, All, append_assoc, sym, lt→ltb,
}

-- The UTF-8 of one character.
unfoldable pub utf8 : ℕ → List ℕ
utf8 c =
    if ltb c 0x80
    then c ∷ []
    else if ltb c 0x800
    then (0xc0 + c / 64) ∷ (0x80 + c % 64) ∷ []
    else if ltb c 0x10000
    then (0xe0 + c / 4096) ∷ (0x80 + c / 64 % 64) ∷ (0x80 + c % 64) ∷ []
    else (0xf0 + c / 262144) ∷ (0x80 + c / 4096 % 64) ∷ (0x80 + c / 64 % 64) ∷ (0x80 + c % 64) ∷ []

unfoldable pub as_bytes : String → List ℕ
as_bytes String.[] = []
as_bytes (String.◌∷◌ c s) = utf8 (code c) ++ as_bytes s

unfoldable pub contains : String → ℕ → Bool
contains String.[] c = false
contains (String.◌∷◌ d s) c = code d == c || contains s c

-- `format!` of texts, one after the other.
unfoldable pub format : List String → String
format [] = String.[]
format (s ∷ texts) = append s (format texts)

-- The digits of base 16, of which the first ten are those of base 10.
abbrev digits : List Char
digits =
    "0" ∷ "1" ∷ "2" ∷ "3" ∷ "4" ∷ "5" ∷ "6" ∷ "7" ∷ "8" ∷ "9" ∷ "A" ∷ "B" ∷ "C" ∷ "D" ∷ "E" ∷ "F"
    ∷ []

unfoldable pub digit : ℕ → Char
digit n = get_or digits n "0"

-- `{:02X}` of a byte, in front of a text.
unfoldable pub hex_byte : ℕ → String → String
hex_byte b s = String.◌∷◌ (digit (b / 16)) (String.◌∷◌ (digit (b % 16)) s)

-- `to_string` of a `u64`, whose twenty digits at most are the fuel, in front of a text.
unfoldable pub decimal_loop : ℕ → ℕ → String → String
decimal_loop zero n s = s
decimal_loop (suc left) n s =
    let t = String.◌∷◌ (digit (n % 10)) s in
    let more = decimal_loop left (n / 10) t in if ltb n 10 then t else more

unfoldable pub decimal : ℕ → String
unfolding decimal_loop
decimal n = decimal_loop 20 n String.[]

decimal_runs : ◌≡◌ {A = String} (decimal 18446744073709551615) "18446744073709551615"
unfolding decimal digit
decimal_runs = refl

-- The value of a digit's character, as a reader of the text takes it.
unfoldable pub digit_value : ℕ → ℕ
digit_value c = if ltb c b'A' then c - b'0' else c - b'A' + 10

digit_value-digit_high :
    (n : ℕ)
    → n < 8
    → digit_value (code (digit (suc (suc (suc (suc (suc (suc (suc (suc n))))))))))
      ≡ suc (suc (suc (suc (suc (suc (suc (suc n)))))))
unfolding digit digit_value
digit_value-digit_high zero h = refl
digit_value-digit_high (suc zero) h = refl
digit_value-digit_high (suc (suc zero)) h = refl
digit_value-digit_high (suc (suc (suc zero))) h = refl
digit_value-digit_high (suc (suc (suc (suc zero)))) h = refl
digit_value-digit_high (suc (suc (suc (suc (suc zero))))) h = refl
digit_value-digit_high (suc (suc (suc (suc (suc (suc zero)))))) h = refl
digit_value-digit_high (suc (suc (suc (suc (suc (suc (suc zero))))))) h = refl
digit_value-digit_high (suc (suc (suc (suc (suc (suc (suc (suc n)))))))) h = absurd (omega arith)

pub digit_value-digit : (n : ℕ) → n < 16 → digit_value (code (digit n)) ≡ n
unfolding digit digit_value
digit_value-digit zero h = refl
digit_value-digit (suc zero) h = refl
digit_value-digit (suc (suc zero)) h = refl
digit_value-digit (suc (suc (suc zero))) h = refl
digit_value-digit (suc (suc (suc (suc zero)))) h = refl
digit_value-digit (suc (suc (suc (suc (suc zero))))) h = refl
digit_value-digit (suc (suc (suc (suc (suc (suc zero)))))) h = refl
digit_value-digit (suc (suc (suc (suc (suc (suc (suc zero))))))) h = refl
digit_value-digit (suc (suc (suc (suc (suc (suc (suc (suc n)))))))) h =
    digit_value-digit_high n (omega arith)

get_or-All {ℓ κ} :
    {A : Type ℓ} (P : A → Type κ) (xs : List A) (i : ℕ) (d : A) → All P xs → P d → P (get_or xs i d)
get_or-All P [] i d h hd = hd
get_or-All P (x ∷ xs) zero d h hd = h.0
get_or-All P (x ∷ xs) (suc i) d h hd = get_or-All P xs i d h.1 hd

abbrev IsAscii : Char → Type 0
IsAscii c = code c < 128

pub digit-IsAscii : (n : ℕ) → code (digit n) < 128
unfolding digit
digit-IsAscii n = get_or-All IsAscii digits n "0" (omega arith) (omega arith)

pub utf8_ascii : (c : ℕ) → c < 128 → utf8 c ≡ c ∷ []
unfolding utf8
utf8_ascii c h = rw (lt→ltb c 0x80 h) refl

pub as_bytes-append : (s t : String) → as_bytes (append s t) ≡ as_bytes s ++ as_bytes t
unfolding as_bytes
as_bytes-append String.[] t = rw (append_laws.nil t) refl
as_bytes-append (String.◌∷◌ c s) t =
    rw (append_laws.cons c s t, as_bytes-append s t)
      (sym (append_assoc (utf8 (code c)) (as_bytes s) (as_bytes t)))

pub as_bytes-hex_byte :
    (b : ℕ) (s : String)
    → as_bytes (hex_byte b s) ≡ code (digit (b / 16)) ∷ code (digit (b % 16)) ∷ as_bytes s
unfolding as_bytes hex_byte
as_bytes-hex_byte b s =
    rw (utf8_ascii _ (digit-IsAscii (b / 16)), utf8_ascii _ (digit-IsAscii (b % 16))) refl
