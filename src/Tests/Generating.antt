-- ===== src/Tests/Generating.antt =====
-- Runs of the generator of orders, and the theorems on it at a small target.
use native.Mathlib.Nat.{mod-lt}
use mysql_redshift_agent.Prelude.{
  arith, ℕ, ◌+◌, ◌*◌, ◌/◌, ◌%◌, ◌≡◌, ◌≤◌, ◌⊎◌, refl, false, some, List, length, All,
}
use mysql_redshift_agent.Text.{Text, codes}
use mysql_redshift_agent.Csv.Reader.{has_control, is_control}
use mysql_redshift_agent.Csv.Reader.{read_csv}
use mysql_redshift_agent.Gen.{RandomSource, Args, line_of, printed, generate}
use mysql_redshift_agent.Gen.Bounds.{IsSource, generate-rows, generate-reports}
use mysql_redshift_agent.Gen.Widths.{Fits, IsWithin, column_widths, generate-Fits}
use mysql_redshift_agent.Gen.Lines.{generate-read_csv}

-- A generator that counts.
abbrev counter : RandomSource
counter = record {
  State = ℕ;
  below = λ n s. (s % n, s + 1);
  unit = λ s. (s * 1_000_000_000_000_000, s + 1);
  amount = λ price x. codes "10.01";
  timestamp_ms = λ offset. 1_672_531_200_000;
}

abbrev args : Args
args = record { uids = 3; target_rows = 40; progress_every = 500 }

counter-IsSource : IsSource counter
counter-IsSource = record { below_lt = λ n s pos. mod-lt s pos }

plain_amount : (price : Text) (x : ℕ) → has_control 9 (counter.amount price x) ≡ false
unfolding has_control is_control
plain_amount price x = refl

generate-read_csv_example :
    (orders : List (List Text)) × (read_csv 9 (printed (generate counter args 4).lines)
      ≡ some orders)
    × (length orders ≡ length (generate counter args 4).lines)
    × All (λ fields. length fields ≡ 24) orders
generate-read_csv_example = generate-read_csv counter plain_amount args 4

counter-IsWithin : IsWithin counter
counter-IsWithin = record {
  source = counter-IsSource;
  amount = λ price x known. omega arith;
  timestamp = λ k. omega arith;
}

generate-Fits_example :
    All
      (λ line. (fields : List Text) × (line ≡ line_of fields) × Fits column_widths fields)
      (generate counter args 4).lines
generate-Fits_example = generate-Fits counter counter-IsWithin args 4 (omega arith)

generate-rows_example :
    (length (generate counter args 4).lines ≡ (generate counter args 4).rows)
    × ((generate counter args 4).rows ≤ 40)
    × (((generate counter args 4).rows ≡ 40) ⊎ (3 ≤ (generate counter args 4).rows))
    × ((generate counter args 4).rows ≤ 500 * 3)
generate-rows_example = generate-rows counter counter-IsSource args 4

generate-reports_example :
    length (generate counter args 4).reports ≡ (generate counter args 4).rows / 500
generate-reports_example = generate-reports counter counter-IsSource args 4 (omega arith)
