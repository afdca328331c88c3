-- ===== src/Templates/Window.antt =====
-- `resolve_window` and `_window` of services/templates.py.
pub mod Laws
use aiops_rca_orchestrator.Common.{
  ℕ, ◌+◌, ◌-◌, ◌*◌, ◌/◌, Bool, true, false, ◌&&◌, ◌||◌, Option, none, some, String, List, [], ltb,
  leb, ◌=ₜ◌, if◌then◌else◌,
}
use aiops_rca_orchestrator.Common.Dict.{Dict}
use aiops_rca_orchestrator.Common.Text.{◌<>◌}
use aiops_rca_orchestrator.Common.Value.{Value, str, get, or_else, to_str, truthy, Runtime}
use aiops_rca_orchestrator.Common.Outcome.{
  Outcome, Exception, ok, raised, value_error, failure, plain, ◌>>=◌,
}
use aiops_rca_orchestrator.Schema.Investigation.{
  Moment, InitialWindowHint, relative, absolute, ParsedRequest, RequestEnvelope,
}
use aiops_rca_orchestrator.Normalizer.Fields.{mapping}

abbrev pub second : ℕ
second = 1000000

abbrev pub minute : ℕ
minute = 60 * second

abbrev pub hour : ℕ
hour = 60 * minute

abbrev pub day : ℕ
day = 24 * hour

-- The last microsecond of the year 9999.
abbrev pub last_moment : ℕ
last_moment = 3652059 * day - 1

-- The moment `forward - back`, as far as a `datetime` holds it.
unfoldable pub moved : (forward back : ℕ) → Outcome Moment
moved forward back =
    if ltb forward back || ltb last_moment (forward - back)
    then raised (failure (plain "OverflowError" "date value out of range"))
    else ok (forward - back)

-- What the code takes of a time zone and of the calendar: the reading of the zone's clocks at a
-- moment, the moment of such a reading, and the day of the month of a day, counted as the readings
-- count their days.
pub record Zone : Type 0 where
  pub wall : Moment → ℕ
  pub instant : ℕ → Moment
  pub day_of_month : ℕ → ℕ

-- `moment.replace(day=1, hour=0, minute=0, second=0, microsecond=0)` on a reading.
abbrev pub month_start : Zone → ℕ → ℕ
month_start zone reading = (reading / day + 1 - zone.day_of_month (reading / day)) * day

abbrev pub current_start : Zone → Moment → ℕ
current_start zone received = month_start zone (zone.wall received)

-- The day before is at midnight, so its month's start needs no other field replaced.
abbrev pub previous_start : Zone → Moment → ℕ
previous_start zone received = month_start zone (current_start zone received - day)

abbrev pub to_second : Moment → Moment
to_second m = m / second * second

abbrev pub Span : Type 0
Span = Moment × Moment

-- `_window(start, end, not_after)`, with the two moments that it writes out.
unfoldable pub window : (start stop not_after : Moment) → Outcome Span
unfolding moved
window start stop not_after =
    if ltb not_after stop
    then if leb not_after start
      then (moved (not_after + start) stop >>= λ earlier.
          ok (to_second earlier, to_second not_after))
      else ok (to_second start, to_second not_after)
    else ok (to_second start, to_second stop)

around : (anchor before after not_after : ℕ) → Outcome Span
unfolding moved window
around anchor before after not_after = do
  start ← moved anchor before
  stop ← moved (anchor + after) 0
  window start stop not_after

last_days : ℕ → Moment → Outcome Span
unfolding moved window
last_days days received = do start ← moved received (days * day); window start received received

abbrev anchor_of : Option Moment → Moment → Moment
anchor_of none received = received
anchor_of (some anchor) received = anchor

abbrev pub unspecified : ℕ
unspecified = 3 * hour

hinted : Option InitialWindowHint → (anchor received : Moment) → Outcome Span
unfolding around window
hinted (some (absolute start stop)) anchor received = window start stop received
hinted (some (relative before after)) anchor received =
    around anchor (before * minute) (after * minute) received
hinted none anchor received = around anchor unspecified unspecified received

abbrev pub range_of : Runtime → Dict Value → String
range_of rt collection =
    to_str rt (or_else (get "range" (mapping (get "window" collection))) (str "anchor_relative"))

-- From the start of the month before to the start of the month, by the zone's clocks.
unfoldable pub last_month : Moment → Zone → Outcome Span
unfolding window
last_month received zone =
    window (zone.instant (previous_start zone received))
      (zone.instant (current_start zone received)) received

-- The window of a range, in UTC. The zone is what `ZoneInfo(parsed.timezone)` returns or raises.
unfoldable pub range_window : Outcome Zone → String → ParsedRequest → Moment → Outcome Span
unfolding last_days window hinted last_month
range_window zone range parsed received =
    if range =ₜ "last_7_days"
    then last_days 7 received
    else if range =ₜ "last_30_days"
    then last_days 30 received
    else if range =ₜ "last_calendar_month"
    then zone >>= last_month received
    else if range =ₜ "anchor_relative"
    then hinted parsed.initial_window_hint (anchor_of parsed.anchor_time received) received
    else raised (value_error ("unsupported collection window range: " <> range))

-- `resolve_window(collection, parsed, request)`, with the two moments that it writes out.
unfoldable pub resolve_window :
    Runtime → Outcome Zone → Dict Value → ParsedRequest → RequestEnvelope → Outcome Span
unfolding range_window to_str truthy
resolve_window rt zone collection parsed request =
    range_window zone (range_of rt collection) parsed request.received_at
