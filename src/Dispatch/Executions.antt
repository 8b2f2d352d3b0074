-- ===== src/Dispatch/Executions.antt =====
-- The ids of executions, and the digits of the times in them (cmd/server/scheduler.go).
use Prim.Native.String.append
use native.Mathlib.Nat.{pow-suc}
use gsactions_mcp.Common.{
  ℕ, zero, suc, ◌+◌, ◌*◌, ◌/◌, ◌%◌, ◌^◌, ◌<◌, String, ◌<>◌, ◌≡◌, refl, sym, ap, subst, ◌∙◌, inl,
  inr, none, some, [], ◌∷◌, ◌++◌, arith, ltb, Bool-cases, to_chars, from_chars, to_chars-from_chars,
}
use gsactions_mcp.Common.Int.{pos}
use gsactions_mcp.Dispatch.{decimal, show_int, execution_id_of}
use gsactions_mcp.Store.{Task, Env}
use gsactions_mcp.Template.{Chars}
use gsactions_mcp.Uuid.{hex_char, hex_value, format_uuid}
use gsactions_mcp.Uuid.RoundTrip.{hex_value-hex_char}

-- The number that digits stand for, behind those that make `acc`.
read_digits : ℕ → Chars → ℕ
read_digits acc [] = acc
read_digits acc (c ∷ s) = elim (hex_value c) [ none ↦ acc | some d ↦ read_digits (acc * 10 + d) s ]

read_digits-hex_char :
    (acc d : ℕ) (out : Chars)
    → d < 16
    → read_digits acc (hex_char d ∷ out) ≡ read_digits (acc * 10 + d) out
unfolding read_digits
read_digits-hex_char acc d out small = rw (hex_value-hex_char d small, read_digits) refl

one_digit :
    (n : ℕ) (out : Chars) → n < 10 → read_digits 0 (hex_char (n % 10) ∷ out) ≡ read_digits n out
one_digit n out small =
    read_digits-hex_char 0 (n % 10) out (omega arith) ∙ ap (λ k. read_digits k out) (omega arith)

tenth : (n p : ℕ) → n < p * 10 → n / 10 < p
tenth n p small = omega arith

power : (fuel n : ℕ) → n < 10 ^ suc (suc fuel) → n < 10 ^ suc fuel * 10
power fuel n small = subst (λ k. n < k) (pow-suc 10 (suc fuel)) small

-- With fuel for as many digits as the number has, the digits that are printed are all of them.
read_digits-decimal :
    (fuel n : ℕ) (out : Chars)
    → n < 10 ^ suc fuel
    → read_digits 0 (decimal (suc fuel) n out) ≡ read_digits n out
unfolding decimal
read_digits-decimal zero n out small = elim (Bool-cases (ltb n 10)) [
  | inl one ↦ rw (one) (one_digit n out (ground (arith, one)))
  | inr more ↦ ground (arith, more, small)
]
read_digits-decimal (suc fuel) n out small = elim (Bool-cases (ltb n 10)) [
  | inl one ↦ rw (one) (one_digit n out (ground (arith, one)))
  | inr more ↦ rw (more) (
      read_digits-decimal fuel (n / 10) (hex_char (n % 10) ∷ out)
        (tenth n (10 ^ suc fuel) (power fuel n small))
      ∙ read_digits-hex_char (n / 10) (n % 10) out (omega arith)
      ∙ ap (λ k. read_digits k out) (omega arith))
]

to_chars-append : (s t : String) → to_chars (s <> t) ≡ to_chars s ++ to_chars t
to_chars-append String.[] t = rw (append.nil t) refl
to_chars-append (String.◌∷◌ c s) t = rw (append.cons c s t) (ap (λ r. c ∷ r) (to_chars-append s t))

append_cancel : (s t u : Chars) → s ++ t ≡ s ++ u → t ≡ u
append_cancel [] t u e = e
append_cancel (c ∷ s) t u e = append_cancel s t u (ap drop_head e)
  where
    drop_head : Chars → Chars
    drop_head [] = []
    drop_head (x ∷ xs) = xs

from_chars-to_chars : (s : String) → from_chars (to_chars s) ≡ s
from_chars-to_chars String.[] = refl
from_chars-to_chars (String.◌∷◌ c s) = ap (λ r. String.◌∷◌ c r) (from_chars-to_chars s)

to_chars-injective : (s t : String) → to_chars s ≡ to_chars t → s ≡ t
to_chars-injective s t e = sym (from_chars-to_chars s) ∙ ap from_chars e ∙ from_chars-to_chars t

read_digits-show_int : (n : ℕ) → n < 10 ^ 20 → read_digits 0 (to_chars (show_int (pos n))) ≡ n
unfolding show_int read_digits
read_digits-show_int n small =
    ap (read_digits 0) (to_chars-from_chars (decimal 20 n [])) ∙ read_digits-decimal 19 n [] small

-- What stands behind the same text is the same.
behind_text : (x s t : String) → x <> s ≡ x <> t → to_chars s ≡ to_chars t
behind_text x s t e =
    append_cancel (to_chars x) (to_chars s) (to_chars t)
      (sym (to_chars-append x s) ∙ ap to_chars e ∙ to_chars-append x t)

-- Two runs of a task have the same execution id only at the same reading of the clock: with the
-- twenty digits that the fuel of the printing allows for, no digit of a time is lost. This is for
-- times from 1970 on, which have at most twenty digits.
execution_id_of_distinct :
    (env later_env : Env) (t : Task) (a b : ℕ)
    → env.now ≡ pos a
    → later_env.now ≡ pos b
    → a < 10 ^ 20
    → b < 10 ^ 20
    → execution_id_of env t ≡ execution_id_of later_env t
    → a ≡ b
unfolding execution_id_of
execution_id_of_distinct env later_env t a b first second a_small b_small same =
    let tails = to_chars-injective ("-" <> show_int env.now) ("-" <> show_int later_env.now) (
      behind_text (format_uuid t.id) ("-" <> show_int env.now) ("-" <> show_int later_env.now)
        same) in
    let digits : to_chars (show_int env.now) ≡ to_chars (show_int later_env.now) =
      behind_text "-" (show_int env.now) (show_int later_env.now) tails in
    let digits' : to_chars (show_int (pos a)) ≡ to_chars (show_int (pos b)) =
      ap (λ z. to_chars (show_int z)) (sym first)
      ∙ digits
      ∙ ap (λ z. to_chars (show_int z)) second in
    sym (read_digits-show_int a a_small)
    ∙ ap (read_digits 0) digits'
    ∙ read_digits-show_int b b_small
