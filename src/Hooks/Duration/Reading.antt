-- ===== src/Hooks/Duration/Reading.antt =====
-- A duration is read as the seconds that it stands for.
use Prim.Native.Char.{Char, code}
use Prim.Native.Nat.{◌/◌, ◌*◌}
use Prim.Native.String.{◌++◌}
use text.Mathlib.TextLemmas.{nil-append, cons-append}
use mattermost_plugin_openta.Base.{
  ℕ, zero, suc, ◌+◌, ◌-◌, ◌%◌, ◌<◌, String, ◌≡◌, refl, false, nat_eq, ltb, digit_text, digit,
  digits, decimal, arith, Bool-cases, inl, inr, ◌∙◌, if◌then◌else◌,
}
use mattermost_plugin_openta.Hooks.Duration.{pad_start, format_duration, post_duration}

-- What a reader of a clock has so far: the units that are complete, in the next smaller one, and the
-- number that is being read.
abbrev pub Reading : Type 0
Reading = ℕ × ℕ

abbrev pub read_char : Char → Reading → Reading
read_char c (units, n) =
    if nat_eq (code c) 58 then ((units + n) * 60, 0) else (units, n * 10 + (code c - 48))

abbrev pub read : String → Reading → Reading
read String.[] r = r
read (String.◌∷◌ c s) r = read s (read_char c r)

-- `7:05` is seven minutes and five seconds, `1:00:00` an hour.
abbrev pub read_clock : String → ℕ
read_clock s = let (units, n) = read s (0, 0) in units + n

read-append : (s t : String) (r : Reading) → read (s ++ t) r ≡ read t (read s r)
read-append String.[] t r = rw (nil-append t)
read-append (String.◌∷◌ c s) t r = rw (cons-append c s t) (read-append s t (read_char c r))

read-digit_text : (d units k : ℕ) → d < 10 → read (digit_text d) (units, k) ≡ (units, k * 10 + d)
read-digit_text zero units k h = refl
read-digit_text (suc zero) units k h = refl
read-digit_text (suc (suc zero)) units k h = refl
read-digit_text (suc (suc (suc zero))) units k h = refl
read-digit_text (suc (suc (suc (suc zero)))) units k h = refl
read-digit_text (suc (suc (suc (suc (suc zero))))) units k h = refl
read-digit_text (suc (suc (suc (suc (suc (suc zero)))))) units k h = refl
read-digit_text (suc (suc (suc (suc (suc (suc (suc zero))))))) units k h = refl
read-digit_text (suc (suc (suc (suc (suc (suc (suc (suc zero)))))))) units k h = refl
read-digit_text (suc (suc (suc (suc (suc (suc (suc (suc (suc zero))))))))) units k h = refl
read-digit_text (suc (suc (suc (suc (suc (suc (suc (suc (suc (suc d)))))))))) units k h =
    absurd (omega arith)

read-digit : (n units k : ℕ) → read (digit n) (units, k) ≡ (units, k * 10 + n % 10)
read-digit n units k = read-digit_text (n % 10) units k (omega arith)

read-digits : (most n units : ℕ) → n < most → read (digits most n) (units, 0) ≡ (units, n)
unfolding digits
read-digits zero n units h = absurd (omega arith)
read-digits (suc most) n units h = elim (Bool-cases (ltb n 10)) [
  | inl small ↦ rw (small, read-digit n units 0) (ground arith)
  | inr large ↦
      let front : read (digits most (n / 10)) (units, 0) ≡ (units, n / 10) =
        read-digits most (n / 10) units (ground arith) in
      rw
        (
          large,
          read-append (digits most (n / 10)) (digit n) (units, 0),
          front,
          read-digit n units (n / 10),
        )
        (ground arith)
]

read-decimal : (n units : ℕ) → read (decimal n) (units, 0) ≡ (units, n)
unfolding decimal
read-decimal n units = read-digits (suc n) n units (omega arith)

read-pad_start : (s : String) (units : ℕ) → read (pad_start s) (units, 0) ≡ read s (units, 0)
read-pad_start String.[] units = refl
read-pad_start (String.◌∷◌ c String.[]) units =
    rw (read-append "0" (String.◌∷◌ c String.[]) (units, 0))
read-pad_start (String.◌∷◌ c (String.◌∷◌ d s)) units = refl

read-padded : (n units : ℕ) → read (pad_start (decimal n)) (units, 0) ≡ (units, n)
read-padded n units = read-pad_start (decimal n) units ∙ read-decimal n units

-- A unit, the colon after it, and the rest.
read-colon :
    (s rest : String) (n units : ℕ)
    → read s (units, 0) ≡ (units, n)
    → read (s ++ (":" ++ rest)) (units, 0) ≡ read rest ((units + n) * 60, 0)
read-colon s rest n units h =
    rw (read-append s (":" ++ rest) (units, 0), h, read-append ":" rest (units, n))

read-minutes :
    (s : String) (minutes seconds units : ℕ)
    → read s (units, 0) ≡ (units, minutes)
    → read (s ++ (":" ++ pad_start (decimal seconds))) (units, 0)
      ≡ ((units + minutes) * 60, seconds)
read-minutes s minutes seconds units h =
    read-colon s (pad_start (decimal seconds)) minutes units h
    ∙ read-padded seconds ((units + minutes) * 60)

-- The duration that the hook shows is read as the seconds it was given.
read_clock-format_duration : (n : ℕ) → read_clock (format_duration n) ≡ n
unfolding format_duration
read_clock-format_duration n = elim (Bool-cases (ltb 0 (n / 3600))) [
  | inl long ↦
      let hours : read (decimal (n / 3600)) (0, 0) ≡ (0, n / 3600) = read-decimal (n / 3600) 0 in
      let units = (0 + n / 3600) * 60 in
      let rest =
        read-minutes (pad_start (decimal (n % 3600 / 60))) (n % 3600 / 60) (n % 60) units
          (read-padded (n % 3600 / 60) units) in
      rw (long, read-colon (decimal (n / 3600)) _ (n / 3600) 0 hours, rest) (omega arith)
  | inr short ↦
      rw
        (
          short,
          read-minutes (decimal (n % 3600 / 60)) (n % 3600 / 60) (n % 60) 0
              (read-decimal (n % 3600 / 60) 0),
        )
        (ground arith)
]

read_clock-post_duration : (n : ℕ) → read_clock (post_duration n) ≡ n
unfolding post_duration
read_clock-post_duration n =
    rw (read-minutes (decimal (n / 60)) (n / 60) (n % 60) 0 (read-decimal (n / 60) 0)) (omega arith)

-- Below an hour both say the same.
format_duration-post_duration : (n : ℕ) → n < 3600 → format_duration n ≡ post_duration n
unfolding format_duration post_duration
format_duration-post_duration n h =
    let short : ltb 0 (n / 3600) ≡ false = ground arith in
    let same : n % 3600 / 60 ≡ n / 60 = omega arith in rw (short, same)

-- What the call shows and what the post shows of a duration are read as the seconds that it stands for,
-- and below an hour both are the same text.
pub durations_agree :
    (n : ℕ)
    → (read_clock (format_duration n) ≡ n)
      × (read_clock (post_duration n) ≡ n)
      × (n < 3600 → format_duration n ≡ post_duration n)
durations_agree n =
    (read_clock-format_duration n, read_clock-post_duration n, format_duration-post_duration n)
