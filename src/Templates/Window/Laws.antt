-- ===== src/Templates/Window/Laws.antt =====
-- The window of a collection never ends after the question arrived, and is not empty.
use aiops_rca_orchestrator.Common.{
  ℕ, ◌+◌, ◌-◌, ◌*◌, ◌≤◌, ◌<◌, ◌≡◌, refl, sym, ap, subst, Bool, true, false, ◌⊎◌, Option, none, some,
  String, ltb, leb, ◌=ₜ◌, if◌then◌else◌, arith,
}
use aiops_rca_orchestrator.Common.Outcome.{Outcome, ok, raised, ◌>>=◌, after, either, ok-injective}
use aiops_rca_orchestrator.Schema.Investigation.{
  Moment, InitialWindowHint, relative, absolute, ParsedRequest,
}
use aiops_rca_orchestrator.Templates.Window.{
  second, minute, day, last_moment, moved, last_month, Zone, current_start, previous_start,
  to_second, Span, window, around, last_days, unspecified, hinted, range_window,
}

moved-value : (a b : ℕ) {m : Moment} → moved a b ≡ ok m → (b ≤ a) × (m ≡ a - b)
unfolding moved
moved-value a b {m} h = grind arith

moved-ok : (a b : ℕ) → b ≤ a → a - b ≤ last_moment → moved a b ≡ ok (a - b)
unfolding moved
moved-ok a b h k = ground arith

-- What a conditional returns, from its two branches and their tests.
decided {ℓ} :
    {A : Type 0} (P : A → Type ℓ) (b : Bool) (x y : Outcome A) {t : A}
    → (b ≡ true → x ≡ ok t → P t)
    → (b ≡ false → y ≡ ok t → P t)
    → (if b then x else y) ≡ ok t
    → P t
decided P true x y f g h = f refl h
decided P false x y f g h = g refl h

holds {ℓ} : {A : Type 0} (P : A → Type ℓ) (v : A) {t : A} → P v → ok v ≡ ok t → P t
holds P v {t} p h = subst P (ok-injective v t h) p

-- A window ends no later than the question arrived, and does not start after it ends.
pub Bounded : Moment → Span → Type 0
Bounded received w = (w.0 ≤ w.1) × (w.1 ≤ received)

-- A window that is not empty.
pub Open : Span → Type 0
Open w = w.0 < w.1

-- A property of each window that the code can write out is one of the window it returns.
window-cases {ℓ} :
    (P : Span → Type ℓ) (start stop received : Moment) {w : Span}
    → (received < stop
        → received ≤ start
        → stop ≤ received + start
        → P (to_second (received + start - stop), to_second received))
    → (received < stop → start < received → P (to_second start, to_second received))
    → (stop ≤ received → P (to_second start, to_second stop))
    → window start stop received ≡ ok w
    → P w
unfolding window
window-cases P start stop received later across inside =
    decided P (ltb received stop) _ _
      (λ past.
        decided P (leb received start) _ _
          (λ whole. after P (moved (received + start) stop) _ (λ m e.
            let v = moved-value (received + start) stop e in
            holds P (to_second m, to_second received)
              (subst (λ x. P (to_second x, to_second received)) (sym v.1)
                (later (ground arith) (ground arith) v.0))))
          (λ part. holds P _ (across (ground arith) (ground arith))))
      (λ before. holds P _ (inside (ground arith)))

window-Bounded :
    (start stop received : Moment) {w : Span}
    → start ≤ stop
    → window start stop received ≡ ok w
    → Bounded received w
unfolding Bounded
window-Bounded start stop received h =
    window-cases (Bounded received) start stop received (λ a b c. (omega arith, omega arith))
      (λ a b. (omega arith, omega arith)) (λ a. (omega arith, omega arith))

-- A window of at least one second, of which at least one second is not in the future unless all of
-- it is, is not empty.
window-Open :
    (start stop received : Moment) {w : Span}
    → start + second ≤ stop
    → (start + second ≤ received) ⊎ (received ≤ start)
    → window start stop received ≡ ok w
    → Open w
unfolding Open
window-Open start stop received long whole =
    window-cases Open start stop received (λ a b c. omega arith) (λ a b. ground arith)
      (λ a. omega arith)

total-if :
    (b : Bool) (x y : Outcome Span)
    → (b ≡ true → (w : Span) × (x ≡ ok w))
    → (b ≡ false → (w : Span) × (y ≡ ok w))
    → (w : Span) × ((if b then x else y) ≡ ok w)
total-if true x y f g = f refl
total-if false x y f g = g refl

-- No window that is not wider than the time before the question arrived overflows.
window-total :
    (start stop received : Moment)
    → stop ≤ received + start
    → start ≤ stop
    → received ≤ last_moment
    → (w : Span) × (window start stop received ≡ ok w)
unfolding window
window-total start stop received back h fits =
    total-if (ltb received stop) _ _
      (λ past.
        total-if (leb received start) _ _
          (λ whole. (
            _,
            ap (λ o. o >>= λ earlier. ok (to_second earlier, to_second received))
                (moved-ok (received + start) stop back (omega arith)),
          ))
          (λ part. (_, refl)))
      (λ before. (_, refl))

-- Let the start be at least one second before the end, and at least one second before the arrival or
-- not before it at all. Let the arrival be a moment that a datetime holds, and the end no later than
-- the arrival and the start together, so that the width does not reach back past the first moment.
-- Then `_window` returns a window that is not empty and ends no later than the arrival.
pub window-opens :
    (start stop received : Moment)
    → start + second ≤ stop
    → stop ≤ received + start
    → received ≤ last_moment
    → (start + second ≤ received) ⊎ (received ≤ start)
    → (w : Span) × (window start stop received ≡ ok w) × Open w × Bounded received w
window-opens start stop received long back fits whole =
    let found = window-total start stop received back (omega arith) fits in
    (
      found.0,
      found.1,
      window-Open start stop received long whole found.1,
      window-Bounded start stop received (omega arith) found.1,
    )

-- What the schema asks of a hint: at least five minutes to either side, and that a window of two
-- moments does not end before it starts.
unfoldable pub ValidHint : Option InitialWindowHint → Type 0
ValidHint none = Unit
ValidHint (some (relative before after)) = (5 ≤ before) × (5 ≤ after)
ValidHint (some (absolute start stop)) = start < stop

around-Bounded :
    (anchor before after received : ℕ) {w : Span}
    → around anchor before after received ≡ ok w
    → Bounded received w
unfolding around
around-Bounded anchor before later received h =
    after (Bounded received) (moved anchor before) _
      (λ start e. after (Bounded received) (moved (anchor + later) 0) _ (λ stop k.
        window-Bounded start stop received
          (omega (arith, moved-value anchor before e, moved-value (anchor + later) 0 k))))
      h

last_days-Bounded :
    (days : ℕ) (received : Moment) {w : Span} → last_days days received ≡ ok w → Bounded received w
unfolding last_days
last_days-Bounded days received =
    after (Bounded received) (moved received (days * day)) _ (λ start e.
      window-Bounded start received received (omega (arith, moved-value received (days * day) e)))

hinted-Bounded :
    (hint : Option InitialWindowHint) (anchor received : Moment) {w : Span}
    → ValidHint hint
    → hinted hint anchor received ≡ ok w
    → Bounded received w
unfolding hinted ValidHint
hinted-Bounded none anchor received v = around-Bounded anchor unspecified unspecified received
hinted-Bounded (some (relative before later)) anchor received v =
    around-Bounded anchor (before * minute) (later * minute) received
hinted-Bounded (some (absolute start stop)) anchor received v =
    window-Bounded start stop received (omega arith)

-- A zone whose clocks start a month no earlier than the one before it, or none that is known.
unfoldable pub InOrder : Moment → Outcome Zone → Type 0
InOrder received (ok zone) =
    zone.instant (previous_start zone received) ≤ zone.instant (current_start zone received)
InOrder received (raised e) = Unit

month-Bounded :
    (zone : Outcome Zone) (received : Moment) {w : Span}
    → InOrder received zone
    → (zone >>= last_month received) ≡ ok w
    → Bounded received w
unfolding InOrder last_month
month-Bounded (ok zone) received ordered h = window-Bounded _ _ received ordered h
month-Bounded (raised e) received ordered h = absurd (cc)

-- If the hint keeps to the schema and the zone, where it is known, starts a month no earlier than the
-- one before it, then the window of any range, where the code returns one, does not start after it ends and
-- never ends after the question arrived.
pub range_window-Bounded :
    (zone : Outcome Zone) (range : String) (parsed : ParsedRequest) (received : Moment) {w : Span}
    → ValidHint parsed.initial_window_hint
    → InOrder received zone
    → range_window zone range parsed received ≡ ok w
    → Bounded received w
unfolding range_window
range_window-Bounded zone range parsed received v month =
    either (Bounded received) (range =ₜ "last_7_days") _ _ (last_days-Bounded 7 received) (
      either (Bounded received) (range =ₜ "last_30_days") _ _ (last_days-Bounded 30 received) (
        either (Bounded received) (range =ₜ "last_calendar_month") _ _
          (month-Bounded zone received month)
          (either (Bounded received) (range =ₜ "anchor_relative") _ _
            (hinted-Bounded parsed.initial_window_hint _ received v) (λ h. absurd (cc)))))
