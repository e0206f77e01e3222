-- ===== src/Prelude/Numerals.antt =====
-- std::stoi of the standard library, on a text as octets: white space, a sign and the digits that
-- follow. It throws where no digit follows, or where the number is no `int`.
use bats_protocol_api.Prelude.Octets.{Octets}
use bats_protocol_api.Prelude.{
  ◌>>=◌, ℕ, Option, suc, ◌<◌, none, ◌∷◌, Bool, ◌/◌, ◌==◌, if◌then◌else◌, leb, ◌≡◌, ◌*◌, ◌||◌, ◌+◌,
  ltb, ◌&&◌, some, [], ◌^◌, ◌%◌, ◌-◌, zero, arith, Bool-cases, ◌∙◌, inl, inr,
}
use bats_protocol_api.Prelude.Int.{ℤ, pos, ◌-ℤ◌, negsuc}

abbrev is_space : ℕ → Bool
is_space c = c == 32 || leb 9 c && leb c 13

abbrev pub is_digit : ℕ → Bool
is_digit c = leb 48 c && leb c 57

unfoldable pub skip_spaces : Octets → Octets
skip_spaces [] = []
skip_spaces (c ∷ cs) = if is_space c then skip_spaces cs else c ∷ cs

unfoldable pub digits_from : ℕ → Octets → ℕ
digits_from acc [] = acc
digits_from acc (c ∷ cs) = if is_digit c then digits_from (acc * 10 + (c - 48)) cs else acc

unfoldable pub magnitude : Octets → Option ℕ
magnitude [] = none
magnitude (c ∷ cs) = if is_digit c then some (digits_from (c - 48) cs) else none

-- `int` has 32 bits.
abbrev pub in_int : ℤ → Option ℤ
in_int (pos n) = if ltb n (2 ^ 31) then some (pos n) else none
in_int (negsuc n) = if ltb n (2 ^ 31) then some (negsuc n) else none

signed : Octets → Option ℤ
signed [] = none
signed (c ∷ cs) =
    if c == b'-'
    then (do n ← magnitude cs; in_int (pos 0 -ℤ pos n))
    else if c == b'+'
    then (do n ← magnitude cs; in_int (pos n))
    else (do n ← magnitude (c ∷ cs); in_int (pos n))

unfoldable pub stoi : Octets → Option ℤ
unfolding signed
stoi text = signed (skip_spaces text)

-- The digits of a number, in front of `rest`.
unfoldable pub digits : ℕ → ℕ → Octets → Octets
digits zero n rest = rest
digits (suc fuel) n rest =
    let more = digits fuel (n / 10) ((48 + n % 10) ∷ rest) in
    if ltb n 10 then (48 + n) ∷ rest else more

-- What is read from a printed number goes on with the text behind it.
pub stoi-digits :
    (fuel n : ℕ) (rest : Octets)
    → n < fuel
    → stoi (digits fuel n rest) ≡ in_int (pos (digits_from n rest))
unfolding stoi signed skip_spaces magnitude digits digits_from
stoi-digits zero n rest h = elim h [ ]
stoi-digits (suc fuel) n rest h = elim (Bool-cases (ltb n 10)) [
  | inl small ↦ ground (arith, small)
  | inr large ↦
      rw large
        (stoi-digits fuel (n / 10) ((48 + n % 10) ∷ rest) (ground (arith, large)) ∙ ground arith)
]

-- A number that is an `int`, printed and read again.
pub stoi-digits_nil : (n : ℕ) → n < 2 ^ 31 → stoi (digits (n + 1) n []) ≡ some (pos n)
unfolding digits_from
stoi-digits_nil n h = stoi-digits (n + 1) n [] (omega arith) ∙ ground (arith, h)
