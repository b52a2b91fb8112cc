-- ===== src/Record/Roundtrip.antt =====
-- internal/recordstore/path.go: which offsets are decoded as they were encoded.
use plux_mtx.Base.{
  ℕ, zero, suc, ◌+◌, ◌*◌, ◌/◌, ◌%◌, ◌<◌, ◌≤◌, ◌≡◌, refl, ◌↔◌, ◌∙◌, ltb, some, [], ◌∷◌, arith,
  Bool-cases, inl, inr, ap, sym, some_inj,
}
use plux_mtx.Base.Int.{ℤ, pos, negsuc, sub_ℕ}
use plux_mtx.Record.Offset.{
  decimal, format_int, padded, leading_zeros, encode_seconds, time_location_encode, parse_two,
  decode_signed, time_location_decode,
}

decimal_one : (k n : ℕ) → n < 10 → decimal (suc k) n ≡ (48 + n) ∷ []
unfolding decimal
decimal_one k n h = ground arith

format_int_one : (n : ℕ) → n < 10 → format_int n ≡ (48 + n) ∷ []
unfolding format_int
format_int_one n h = decimal_one n n h

format_int_two : (n : ℕ) → 10 ≤ n → n < 100 → format_int n ≡ (48 + n / 10) ∷ (48 + n % 10) ∷ []
unfolding format_int decimal
format_int_two zero l h = ground arith
format_int_two (suc k) l h = ground (arith, decimal_one k (suc k / 10))

leading_zeros_two : (v : ℕ) → v < 100 → leading_zeros v 2 ≡ (48 + v / 10) ∷ (48 + v % 10) ∷ []
unfolding leading_zeros padded
leading_zeros_two v h = elim (Bool-cases (ltb v 10)) [
  | inl e ↦
      let f : format_int v ≡ (48 + v) ∷ [] = format_int_one v (ground arith) in
      let q : v / 10 ≡ 0 = ground arith in
      let r : v % 10 ≡ v = ground arith in ap (λ out. padded out 2) f ∙ cc
  | inr e ↦ ap (λ out. padded out 2) (format_int_two v (ground arith) h)
]

encode_seconds_lem :
    (n : ℕ)
    → n < 360000
    → encode_seconds n
      ≡ (48 + n / 60 / 60 / 10)
        ∷ (48 + n / 60 / 60 % 10)
        ∷ (48 + n / 60 % 60 / 10)
        ∷ (48 + n / 60 % 60 % 10)
        ∷ []
unfolding encode_seconds
encode_seconds_lem n h =
    let a = leading_zeros_two (n / 60 / 60) (omega arith) in
    let b = leading_zeros_two ((n / 60) % 60) (omega arith) in cc

parse_two_lem : (v : ℕ) → v < 100 → parse_two (48 + v / 10) (48 + v % 10) ≡ v
unfolding parse_two
parse_two_lem v h = ground arith

decode-encode_seconds :
    (sign n : ℕ)
    → n < 360000
    → time_location_decode (sign ∷ encode_seconds n)
      ≡ some (decode_signed sign (n / 60 / 60) ((n / 60) % 60))
unfolding time_location_decode
decode-encode_seconds sign n h =
    let a = parse_two_lem (n / 60 / 60) (omega arith) in
    let b = parse_two_lem ((n / 60) % 60) (omega arith) in
    ap (λ s. time_location_decode (sign ∷ s)) (encode_seconds_lem n h) ∙ cc (a, b)

decode-encode_pos :
    (n : ℕ)
    → n < 360000
    → time_location_decode (time_location_encode (pos n))
      ≡ some (pos (n / 60 / 60 * 3600 + (n / 60) % 60 * 3600))
unfolding time_location_encode decode_signed time_location_decode
decode-encode_pos zero h = refl
decode-encode_pos (suc n) h = decode-encode_seconds 43 (suc n) h

-- The number below zero.
abbrev pub neg : ℕ → ℤ
neg zero = pos 0
neg (suc n) = negsuc n

decode-encode_neg :
    (n : ℕ)
    → n < 360000
    → time_location_decode (time_location_encode (neg n))
      ≡ some (sub_ℕ ((n / 60) % 60 * 3600) (n / 60 / 60 * 3600))
unfolding time_location_encode decode_signed time_location_decode
decode-encode_neg zero h = refl
decode-encode_neg (suc n) h = decode-encode_seconds 45 (suc n) h

sub-neg : (a b n : ℕ) → a + n ≡ b → sub_ℕ a b ≡ neg n
sub-neg a b zero h = ground arith
sub-neg a b (suc n) h = ground arith

neg-sub : (a b n : ℕ) → sub_ℕ a b ≡ neg n → a + n ≡ b
neg-sub a b zero h = ground arith
neg-sub a b (suc n) h = ground arith

-- An offset of whole minutes, east or west of UTC by less than a hundred hours, is decoded as it was
-- encoded exactly if it is one of whole hours.
pub time_location_decode-encode_iff :
    (n : ℕ)
    → n < 360000
    → n % 60 ≡ 0
    → ((time_location_decode (time_location_encode (pos n)) ≡ some (pos n)) ↔ (n % 3600 ≡ 0))
      × ((time_location_decode (time_location_encode (neg n)) ≡ some (neg n)) ↔ (n % 3600 ≡ 0))
time_location_decode-encode_iff n h k =
    let p = decode-encode_pos n h in
    let q = decode-encode_neg n h in
    (
      (
        λ e.
            let i : n / 60 / 60 * 3600 + (n / 60) % 60 * 3600 ≡ n = cc (p, e) in
            omega (arith, i, k),
        λ z. let i : n / 60 / 60 * 3600 + (n / 60) % 60 * 3600 ≡ n = omega (arith, z) in p ∙ cc i,
      ),
      (
        λ e.
            let i : (n / 60) % 60 * 3600 + n ≡ n / 60 / 60 * 3600 =
              neg-sub ((n / 60) % 60 * 3600) (n / 60 / 60 * 3600) n (
                some_inj (sub_ℕ ((n / 60) % 60 * 3600) (n / 60 / 60 * 3600)) (neg n) (sym q ∙ e)) in
            omega (arith, i, k),
        λ z. q ∙ ap some (sub-neg ((n / 60) % 60 * 3600) (n / 60 / 60 * 3600) n (omega (arith, z))),
      ),
    )
