-- ===== src/Gen/Decimal.antt =====
-- `str` of a natural number, and the texts of a date.
use mysql_redshift_agent.Prelude.{
  ℕ, zero, suc, ◌+◌, ◌-◌, ◌*◌, ◌/◌, ◌%◌, ◌<◌, ◌≡◌, refl, List, [], ◌∷◌, ◌++◌, arith, ltb,
  if◌then◌else◌, inl, inr, true, false, Bool-cases,
}
use mysql_redshift_agent.Text.{Text, codes}

-- The digits of a number, with a bound on how many there are.
unfoldable pub digits_of : ℕ → ℕ → Text
digits_of zero n = []
digits_of (suc f) n = elim (ltb n 10) [
  | true ↦ (48 + n) ∷ []
  | false ↦ digits_of f (n / 10) ++ (48 + n % 10) ∷ []
]

-- A number has fewer digits than it counts, or one.
unfoldable pub str_nat : ℕ → Text
str_nat n = digits_of (suc n) n

-- `%m`, `%d`, `%H`, `%M` and `%S`
unfoldable pub two_digits : ℕ → Text
two_digits n = (48 + n / 10 % 10) ∷ (48 + n % 10) ∷ []

-- The month and the day of a day of the year, counted from 0, over the lengths of the months left.
unfoldable pub month_day : List ℕ → ℕ → ℕ → ℕ × ℕ
month_day [] month day = (month, day + 1)
month_day (n ∷ lengths) month day =
    let later = month_day lengths (month + 1) (day - n) in
    if ltb day n then (month, day + 1) else later

abbrev pub months_2023 : List ℕ
months_2023 = 31 ∷ 28 ∷ 31 ∷ 30 ∷ 31 ∷ 30 ∷ 31 ∷ 31 ∷ 30 ∷ 31 ∷ 30 ∷ 31 ∷ []

-- `(datetime(2023, 1, 1) + timedelta(seconds=k)).strftime("%Y-%m-%d %H:%M:%S")` within the year
unfoldable pub event_time_of : ℕ → Text
event_time_of k =
    let (month, day) = month_day months_2023 1 (k / 86400) in
    codes "2023-"
    ++ (two_digits month
        ++ (codes "-"
            ++ (two_digits day
                ++ (codes " "
                    ++ (two_digits (k % 86400 / 3600)
                        ++ (codes ":"
                            ++ (two_digits (k % 3600 / 60)
                                ++ (codes ":" ++ two_digits (k % 60)))))))))

-- The number that a text of digits stands for.
unfoldable pub value_from : ℕ → Text → ℕ
value_from acc [] = acc
value_from acc (c ∷ s) = value_from (acc * 10 + (c - 48)) s

unfoldable pub ten_to : ℕ → ℕ
ten_to zero = 1
ten_to (suc f) = 10 * ten_to f

value_from-append :
    (s : Text) (acc c : ℕ) → value_from acc (s ++ c ∷ []) ≡ value_from acc s * 10 + (c - 48)
unfolding value_from
value_from-append [] acc c = refl
value_from-append (x ∷ s) acc c = value_from-append s (acc * 10 + (x - 48)) c

-- The digits stand for the number, if there is room for them.
pub value_from-digits_of : (f n : ℕ) → n < ten_to f → value_from 0 (digits_of f n) ≡ n
unfolding digits_of ten_to value_from
value_from-digits_of zero n h = omega arith
value_from-digits_of (suc f) n h = elim (Bool-cases (ltb n 10)) [
  | inl e ↦ rw (digits_of, e) (omega arith)
  | inr e ↦
      rw (digits_of, e)
        (omega (
          arith,
          value_from-append (digits_of f (n / 10)) 0 (48 + n % 10),
          value_from-digits_of f (n / 10) (omega arith),
        ))
]

below_ten_to : (n : ℕ) → n < ten_to n
unfolding ten_to
below_ten_to zero = omega arith
below_ten_to (suc n) = omega (arith, below_ten_to n)

-- The text of a number stands for it, however large it is.
pub value_from-str_nat : (n : ℕ) → value_from 0 (str_nat n) ≡ n
unfolding str_nat ten_to
value_from-str_nat n = value_from-digits_of (suc n) n (omega (arith, below_ten_to n))

last_second : event_time_of 31_535_999 ≡ codes "2023-12-31 23:59:59"
unfolding event_time_of month_day two_digits
last_second = refl
