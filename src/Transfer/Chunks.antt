-- ===== src/Transfer/Chunks.antt =====
-- Parts of a file's content: lengths and emptiness.
use bats_protocol_api.Prelude.{
  Bool, ℕ, length, ◌++◌, drop, if◌then◌else◌, ◌<◌, take, ◌==◌, [], ◌≡◌, true, false, ◌+◌, ◌∷◌, suc,
  zero, refl, arith, ◌≤◌, ap, length-append, length-take,
}
use bats_protocol_api.Prelude.Octets.{Octets, is_empty}

pub nonempty-take : (n : ℕ) (xs : Octets) → is_empty (take n xs) ≡ false → is_empty xs ≡ false
nonempty-take zero [] e = e
nonempty-take (suc n) [] e = e
nonempty-take n (x ∷ xs) e = refl

pub bit_back : (b : Bool) → ((if b then 1 else 0) == 1) ≡ b
bit_back true = refl
bit_back false = refl

pub empty-take : (n : ℕ) (xs : Octets) → 0 < n → is_empty (take n xs) ≡ true → xs ≡ []
empty-take zero xs h e = absurd (omega arith)
empty-take (suc n) [] h e = refl
empty-take (suc n) (x ∷ xs) h e = absurd (ground arith)

pub drop-nil : (n : ℕ) → drop {A = ℕ} n [] ≡ []
drop-nil zero = refl
drop-nil (suc n) = refl

-- What was read so far and the next part of the rest are no longer than the file.
pub read-le :
    (content whole unread : Octets) (n : ℕ)
    → whole ++ unread ≡ content
    → length whole + length (take n unread) ≤ length content
read-le content whole unread n q =
    let d : length (whole ++ unread) ≡ length content = ap length q in
    omega (arith, d, length-append whole unread, length-take n unread)

pub positive-length : (xs : Octets) → is_empty xs ≡ false → 0 < length xs
positive-length [] e = absurd (ground arith)
positive-length (x ∷ xs) e = omega arith

pub nil-length : (xs : Octets) → length xs ≡ 0 → xs ≡ []
nil-length [] e = refl
nil-length (x ∷ xs) e = absurd (omega arith)
