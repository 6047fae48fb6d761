-- ===== src/Models/Dates.antt =====
-- Times as DynamoDB stores and compares them. attributevalue writes a time.Time as RFC3339Nano:
-- the seconds at full width, then up to nine digits of the fraction, whose zeros at the end are
-- left out, then `Z`. Texts are compared byte by byte, and `.` comes before the digits and these
-- before `Z`. Instants are in UTC, and their years have four digits.
use delayed_wallet_transacti.Prelude.{
  ℕ, zero, suc, ◌+◌, ◌*◌, ◌/◌, ◌%◌, ◌≤◌, ◌≡◌, Bool, true, ltb, leb, ◌&&◌, ◌||◌, if◌then◌else◌,
  arith,
}
use delayed_wallet_transacti.Models.{Instant}

abbrev nanoseconds : ℕ
nanoseconds = 1000000000

abbrev eqb : ℕ → ℕ → Bool
eqb a b = leb a b && leb b a

-- The last `n` digits of a fraction, as digits in base 11.
unfoldable plain_digits : (n f : ℕ) → ℕ
plain_digits zero f = 0
plain_digits (suc n) f = f % 10 + 11 * plain_digits n (f / 10)

-- The same, with a 10 for each zero at the end: there the text has `Z`, or has ended.
unfoldable trimmed_digits : (n f : ℕ) → ℕ
unfolding plain_digits
trimmed_digits zero f = 0
trimmed_digits (suc n) f =
    let rest = trimmed_digits n (f / 10) in
    if eqb (f % 10) 0 then 10 + 11 * rest else plain_digits (suc n) f

-- The text of an instant comes before that of another.
unfoldable pub text_before : Instant → Instant → Bool
unfolding trimmed_digits
text_before a b =
    ltb (a / nanoseconds) (b / nanoseconds)
    || (eqb (a / nanoseconds) (b / nanoseconds)
        && ltb (trimmed_digits 9 (a % nanoseconds)) (trimmed_digits 9 (b % nanoseconds)))

-- An instant whose text comes first lies in an earlier second, or in the same one.
pub text_before-seconds :
    (a b : Instant) → text_before a b ≡ true → a / nanoseconds ≤ b / nanoseconds
unfolding text_before
text_before-seconds a b h = ground arith
