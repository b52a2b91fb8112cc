-- ===== src/Record/Offset.antt =====
-- internal/recordstore/path.go: leadingZeros, timeLocationEncode and timeLocationDecode. A text is its
-- bytes, an offset from UTC is in seconds. The texts that are decoded are those that the expression
-- of %z matches.
use plux_mtx.Base.{
  ℕ, zero, suc, ◌+◌, ◌-◌, ◌*◌, ◌/◌, ◌%◌, Bool, ltb, leb, ◌==◌, ◌&&◌, if◌then◌else◌, Option, some,
  none, List, [], ◌∷◌, ◌++◌, length,
}
use plux_mtx.Base.Int.{ℤ, pos, negsuc, sub_ℕ}

-- The digits of strconv.FormatInt, at most as many as the first number says.
unfoldable pub decimal : ℕ → ℕ → List ℕ
decimal zero n = []
decimal (suc k) n =
    let rest = decimal k (n / 10) in
    if ltb n 10 then (48 + n) ∷ [] else rest ++ ((48 + n % 10) ∷ [])

unfoldable pub format_int : ℕ → List ℕ
unfolding decimal
format_int n = decimal (suc n) n

unfoldable pub zeros : ℕ → List ℕ
zeros zero = []
zeros (suc n) = 48 ∷ zeros n

unfoldable pub padded : List ℕ → ℕ → List ℕ
unfolding zeros
padded out size = if leb size (length out) then out else zeros (size - length out) ++ out

unfoldable pub leading_zeros : ℕ → ℕ → List ℕ
unfolding format_int padded
leading_zeros v size = padded (format_int v) size

-- Hours and minutes.
unfoldable pub encode_seconds : ℕ → List ℕ
unfolding leading_zeros
encode_seconds off = leading_zeros (off / 60 / 60) 2 ++ leading_zeros ((off / 60) % 60) 2

unfoldable pub time_location_encode : ℤ → List ℕ
unfolding encode_seconds
time_location_encode (pos zero) = 90 ∷ []
time_location_encode (pos (suc n)) = 43 ∷ encode_seconds (suc n)
time_location_encode (negsuc n) = 45 ∷ encode_seconds (suc n)

abbrev is_digit : ℕ → Bool
is_digit c = leb 48 c && leb c 57

-- strconv.ParseInt of two bytes: what is no number is 0.
unfoldable pub parse_two : ℕ → ℕ → ℕ
parse_two a b = if is_digit a && is_digit b then (a - 48) * 10 + (b - 48) else 0

-- sign*v1*3600 + v2*3600
unfoldable pub decode_signed : ℕ → ℕ → ℕ → ℤ
decode_signed sign v1 v2 =
    if sign == 43 then pos (v1 * 3600 + v2 * 3600) else sub_ℕ (v2 * 3600) (v1 * 3600)

-- `none` is the panic of a slice that is out of range.
unfoldable pub time_location_decode : List ℕ → Option ℤ
unfolding parse_two decode_signed
time_location_decode (c ∷ []) = if c == 90 then some (pos 0) else none
time_location_decode (sign ∷ a ∷ b ∷ c ∷ d ∷ rest) =
    some (decode_signed sign (parse_two a b) (parse_two c d))
time_location_decode s = none
