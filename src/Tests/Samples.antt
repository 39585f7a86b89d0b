-- ===== src/Tests/Samples.antt =====
-- A clock whose texts are the binary digits of a time, and other values that several tests share.
use Prim.Native.Nat.{◌/◌, ◌%◌}
use Prim.Native.Char.{Char, code}
use codearts_bridge.Prelude.{
  ℕ, zero, suc, ◌+◌, ◌*◌, ◌≤◌, ◌<◌, String, ◌≡◌, sym, ◌∙◌, ap, inl, inr, false, Option, none, some,
  ◌==◌, eq_iff, eqb, arith, Bool-cases, if◌then◌else◌,
}
use codearts_bridge.Scheduler.Clock.{Clock}

abbrev zero_digit : Char
zero_digit = "0"

abbrev one_digit : Char
one_digit = "1"

unfoldable pub write_bits : ℕ → ℕ → String
write_bits zero n = ""
write_bits (suc fuel) n =
    let more =
      String.◌∷◌ (if eqb (n % 2) 0 then zero_digit else one_digit) (write_bits fuel (n / 2)) in
    if eqb n 0 then "" else more

unfoldable pub read_bits : String → ℕ
read_bits String.[] = 0
read_bits (String.◌∷◌ c s) = (if eqb (code c) 48 then 0 else 1) + 2 * read_bits s

digit_lem :
    (fuel n : ℕ)
    → n ≤ suc fuel
    → eqb n 0 ≡ false
    → (n / 2 ≤ fuel → read_bits (write_bits fuel (n / 2)) ≡ n / 2)
    → (if eqb (code (if eqb (n % 2) 0 then zero_digit else one_digit)) 48 then 0 else 1)
        + 2 * read_bits (write_bits fuel (n / 2))
      ≡ n
digit_lem fuel n h positive ih = elim (Bool-cases (eqb (n % 2) 0)) [
  | inl e ↦ rw e (ground (arith, ih))
  | inr e ↦ rw e (ground (arith, ih))
]

pub read_bits-write_bits : (fuel n : ℕ) → n ≤ fuel → read_bits (write_bits fuel n) ≡ n
unfolding write_bits read_bits
read_bits-write_bits zero n h = omega arith
read_bits-write_bits (suc fuel) n h =
    let ih = read_bits-write_bits fuel (n / 2) in
    elim (Bool-cases (eqb n 0)) [
      | inl e ↦ rw e (ground arith)
      | inr e ↦ rw e (digit_lem fuel n h e ih)
    ]

unfoldable pub sample_clock : Clock
unfolding write_bits read_bits
sample_clock = record {
  isoformat = λ t. write_bits t t;
  fromisoformat = λ s. some (read_bits s);
  fromisoformat-isoformat = λ t. ap some (read_bits-write_bits t t (omega arith));
}

read_marked : String → Option ℕ
unfolding read_bits
read_marked String.[] = none
read_marked (String.◌∷◌ c s) = some (read_bits s)

-- The same after a first digit, so that no time has an empty text.
unfoldable pub marked_clock : Clock
unfolding write_bits read_bits read_marked
marked_clock = record {
  isoformat = λ t. String.◌∷◌ zero_digit (write_bits t t);
  fromisoformat = read_marked;
  fromisoformat-isoformat = λ t. ap some (read_bits-write_bits t t (omega arith));
}

pub marked_clock-written : (t : ℕ) → (marked_clock.isoformat t == "") ≡ false
unfolding marked_clock read_marked
marked_clock-written t = elim (Bool-cases (marked_clock.isoformat t == "")) [
  | inr e ↦ e
  | inl e ↦ absurd (let same = ap read_marked ((eq_iff (marked_clock.isoformat t) "").0 e) in cc)
]

unfoldable pub stamp : ℕ → String
unfolding write_bits
stamp n = write_bits n n

-- Different numbers have different texts.
pub stamp-fresh : (i j : ℕ) → i < j → (stamp j == stamp i) ≡ false
unfolding stamp
stamp-fresh i j h = elim (Bool-cases (stamp j == stamp i)) [
  | inr e ↦ e
  | inl e ↦ absurd (
      let same =
        sym (read_bits-write_bits j j (omega arith))
        ∙ (ap read_bits ((eq_iff (stamp j) (stamp i)).0 e)
            ∙ read_bits-write_bits i i (omega arith)) in
      omega arith)
]
