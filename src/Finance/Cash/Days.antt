-- ===== src/Finance/Cash/Days.antt =====
-- backend/src/modules/finance/cashbook/domain/cash-math.ts: rollDays.
use brothers_book_house.Base.{List, Option, [], map, refl, sum_by, ℕ, ◌∷◌, ◌≡◌}
use brothers_book_house.Base.Int.{int_laws, pos, ℤ, ◌+ℤ◌, ◌-ℤ◌}
use brothers_book_house.Finance.Cash.{DayCloseRow, DayTotals, roll_days, totals_of}

-- Each day opens with what the day before closed with.
abbrev pub IsChained : ℤ → List DayCloseRow → Type 0
IsChained running [] = Unit
IsChained running (r ∷ rs) = (r.opening ≡ running) × IsChained r.closing rs

-- What the last day closes with.
abbrev pub closing_of : ℤ → List DayCloseRow → ℤ
closing_of running [] = running
closing_of running (r ∷ rs) = closing_of r.closing rs

roll_days_days :
    (days : List ℕ) (opening : ℤ) (per_day : ℕ → Option DayTotals)
    → map (λ r. r.day) (roll_days days opening per_day) ≡ days
unfolding roll_days
roll_days_days [] opening per_day = refl
roll_days_days (d ∷ ds) opening per_day =
    let t : DayTotals = totals_of per_day d in
    rw (roll_days_days ds (opening +ℤ pos t.came_in -ℤ pos t.went_out) per_day) refl

roll_days-IsChained :
    (days : List ℕ) (opening : ℤ) (per_day : ℕ → Option DayTotals)
    → IsChained opening (roll_days days opening per_day)
unfolding roll_days
roll_days-IsChained [] opening per_day = tt
roll_days-IsChained (d ∷ ds) opening per_day =
    let t : DayTotals = totals_of per_day d in
    (refl, roll_days-IsChained ds (opening +ℤ pos t.came_in -ℤ pos t.went_out) per_day)

closing_of-roll_days :
    (days : List ℕ) (opening : ℤ) (per_day : ℕ → Option DayTotals)
    → closing_of opening (roll_days days opening per_day)
      ≡ opening
        +ℤ pos (sum_by (λ d. (totals_of per_day d).came_in) days)
        -ℤ pos (sum_by (λ d. (totals_of per_day d).went_out) days)
unfolding roll_days
closing_of-roll_days [] opening per_day = grind int_laws
closing_of-roll_days (d ∷ ds) opening per_day =
    let t : DayTotals = totals_of per_day d in
    let closing = opening +ℤ pos t.came_in -ℤ pos t.went_out in
    rw (closing_of-roll_days ds closing per_day) (grind int_laws)

-- The closing rows are those of the days asked for, in order; each day opens with what the day before
-- closed with, the first with the balance before it; and the last closes with that balance, more by all
-- that came in and less by all that went out.
pub roll_days_lem :
    (days : List ℕ) (opening : ℤ) (per_day : ℕ → Option DayTotals)
    → let rows = roll_days days opening per_day in
      (map (λ r. r.day) rows ≡ days)
      × IsChained opening rows
      × (closing_of opening rows
          ≡ opening
            +ℤ pos (sum_by (λ d. (totals_of per_day d).came_in) days)
            -ℤ pos (sum_by (λ d. (totals_of per_day d).went_out) days))
roll_days_lem days opening per_day = (
  roll_days_days days opening per_day,
  roll_days-IsChained days opening per_day,
  closing_of-roll_days days opening per_day,
)
