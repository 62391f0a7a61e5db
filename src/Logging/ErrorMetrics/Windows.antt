-- ===== src/Logging/ErrorMetrics/Windows.antt =====
-- The windows of a TimeWindowCounter (pkg/logging/error_metrics.go).
use mcp_memory_core.Base.{
  ℕ, ◌*◌, ◌≤◌, ◌<◌, ◌≡◌, ◌∙◌, refl, Bool, true, false, List, [], ◌∷◌, any, length, length-append,
  arith, Bool-cases, inl, inr, leb, if◌then◌else◌,
}
use mathlib.Core.List.{◌++◌}
use mcp_memory_core.Logging.ErrorMetrics.{
  TimeWindow, TimeWindowCounter, new_time_window_counter, is_after, drop_old, clean_old_windows,
  truncate, is_current, add_to_last, add_window, with_amount, increment_by,
}

-- The windows follow one another in time, all after the given one.
abbrev pub AreAfter : ℕ → List TimeWindow → Type 0
AreAfter t [] = Unit
AreAfter t (w ∷ ws) = (t < w.timestamp) × AreAfter w.timestamp ws

abbrev pub AreOrdered : List TimeWindow → Type 0
AreOrdered [] = Unit
AreOrdered (w ∷ ws) = AreAfter w.timestamp ws

-- The windows are ordered and there are at most as many as the counter keeps.
pub record IsValid (c : TimeWindowCounter) : Type 0 where
  pub ordered : AreOrdered c.windows
  pub bounded : length c.windows ≤ c.size

-- Calls of IncrementBy: the time and the amount.
unfoldable pub increment_all : List (ℕ × ℕ) → TimeWindowCounter → TimeWindowCounter
unfolding increment_by
increment_all [] c = c
increment_all ((now, n) ∷ calls) c = increment_all calls (increment_by now n c)

after-AreOrdered : (t : ℕ) (ws : List TimeWindow) → AreAfter t ws → AreOrdered ws
after-AreOrdered t [] h = tt
after-AreOrdered t (w ∷ ws) h = h.1

tail-AreOrdered : (w : TimeWindow) (ws : List TimeWindow) → AreOrdered (w ∷ ws) → AreOrdered ws
tail-AreOrdered w ws h = after-AreOrdered w.timestamp ws h

drop_old-AreOrdered :
    (now age : ℕ) (ws : List TimeWindow)
    → AreOrdered ws
    → AreOrdered (drop_old now age ws) × (length (drop_old now age ws) ≤ length ws)
unfolding drop_old
drop_old-AreOrdered now age [] h = (tt, omega arith)
drop_old-AreOrdered now age (w ∷ ws) h =
    let rest = drop_old-AreOrdered now age ws (tail-AreOrdered w ws h) in
    elim (Bool-cases (is_after now age w)) [
      | inl fresh ↦ rw fresh (h, omega arith)
      | inr stale ↦ rw stale (rest.0, omega (arith, rest.1))
    ]

clean-IsValid : (now : ℕ) (c : TimeWindowCounter) → IsValid c → IsValid (clean_old_windows now c)
unfolding clean_old_windows
clean-IsValid now c v =
    let d = drop_old-AreOrdered now (c.size * c.interval) c.windows v.ordered in
    choose (any (is_after now (c.size * c.interval)) c.windows)
      (record { ordered = d.0; bounded = omega (arith, d.1, v.bounded) })
  where
    choose :
        (b : Bool)
        → IsValid (record c { windows = drop_old now (c.size * c.interval) c.windows })
        → IsValid
            (if b then record c { windows = drop_old now (c.size * c.interval) c.windows } else c)
    choose true w = w
    choose false w = v

add_to_last-AreAfter :
    (t n : ℕ) (ws : List TimeWindow) → AreAfter t ws → AreAfter t (add_to_last n ws)
unfolding add_to_last
add_to_last-AreAfter t n [] h = tt
add_to_last-AreAfter t n (w ∷ []) h = h
add_to_last-AreAfter t n (w ∷ v ∷ ws) h = (h.0, add_to_last-AreAfter w.timestamp n (v ∷ ws) h.1)

add_to_last-AreOrdered :
    (n : ℕ) (ws : List TimeWindow) → AreOrdered ws → AreOrdered (add_to_last n ws)
unfolding add_to_last
add_to_last-AreOrdered n [] h = tt
add_to_last-AreOrdered n (w ∷ []) h = tt
add_to_last-AreOrdered n (w ∷ v ∷ ws) h = add_to_last-AreAfter w.timestamp n (v ∷ ws) h

length-add_to_last : (n : ℕ) (ws : List TimeWindow) → length (add_to_last n ws) ≡ length ws
unfolding add_to_last
length-add_to_last n [] = refl
length-add_to_last n (w ∷ []) = refl
length-add_to_last n (w ∷ v ∷ ws) = omega (arith, length-add_to_last n (v ∷ ws))

-- A time after the last window is after those before it.
before_last :
    (start t : ℕ) (w : TimeWindow) (ws : List TimeWindow)
    → is_current start (w ∷ ws) ≡ false
    → AreAfter t (w ∷ ws)
    → t < start
unfolding is_current
before_last start t w [] h v = ground (arith, h, v.0)
before_last start t w (x ∷ ws) h v =
    let later = before_last start w.timestamp x ws h v.1 in omega (arith, v.0, later)

-- A window that is later than the last one.
append-AreAfter :
    (t n start : ℕ) (ws : List TimeWindow)
    → t < start
    → is_current start ws ≡ false
    → AreAfter t ws
    → AreAfter t (ws ++ (record { timestamp = start; count = n } ∷ []))
unfolding is_current
append-AreAfter t n start [] l h v = (l, tt)
append-AreAfter t n start (w ∷ []) l h v = (v.0, (ground (arith, h), tt))
append-AreAfter t n start (w ∷ x ∷ ws) l h v = (
  v.0,
  append-AreAfter w.timestamp n start (x ∷ ws) (before_last start w.timestamp x ws h v.1) h v.1,
)

append-AreOrdered :
    (n start : ℕ) (ws : List TimeWindow)
    → is_current start ws ≡ false
    → AreOrdered ws
    → AreOrdered (ws ++ (record { timestamp = start; count = n } ∷ []))
unfolding is_current
append-AreOrdered n start [] h v = tt
append-AreOrdered n start (w ∷ []) h v = (ground (arith, h), tt)
append-AreOrdered n start (w ∷ x ∷ ws) h v =
    append-AreAfter w.timestamp n start (x ∷ ws) (before_last start w.timestamp x ws h v) h v

-- Without its first window a list of windows has the same last one, if it has another.
is_current-tail :
    (start : ℕ) (w : TimeWindow) (ws : List TimeWindow)
    → is_current start (w ∷ ws) ≡ false
    → is_current start ws ≡ false
unfolding is_current
is_current-tail start w [] h = refl
is_current-tail start w (x ∷ ws) h = h

add_window-AreOrdered :
    (size start n : ℕ) (ws : List TimeWindow)
    → 0 < size
    → is_current start ws ≡ false
    → AreOrdered ws
    → length ws ≤ size
    → AreOrdered (add_window size start n ws) × (length (add_window size start n ws) ≤ size)
unfolding add_window
add_window-AreOrdered size start n [] p h v l = elim (Bool-cases (leb size 0)) [
  | inl full ↦ absurd (ground (arith, full, p))
  | inr room ↦ rw room (tt, omega arith)
]
add_window-AreOrdered size start n (w ∷ ws) p h v l =
    elim (Bool-cases (leb size (length (w ∷ ws)))) [
      | inl full ↦ rw full (
        append-AreOrdered n start ws (is_current-tail start w ws h) (tail-AreOrdered w ws v),
        omega (arith, length-append ws (record { timestamp = start; count = n } ∷ [])),
      )
      | inr room ↦ rw room (
        append-AreOrdered n start (w ∷ ws) h v,
        ground (arith, room, length-append (w ∷ ws) (record { timestamp = start; count = n } ∷ [])),
      )
    ]

with_amount-IsValid :
    (start n : ℕ) (c : TimeWindowCounter) → 0 < c.size → IsValid c → IsValid (with_amount start n c)
unfolding with_amount
with_amount-IsValid start n c p v = choose (is_current start c.windows) refl
  where
    choose :
        (b : Bool)
        → is_current start c.windows ≡ b
        → IsValid (record c {
          windows = if b then add_to_last n c.windows else add_window c.size start n c.windows;
        })
    choose true h = record {
      ordered = add_to_last-AreOrdered n c.windows v.ordered;
      bounded = omega (arith, length-add_to_last n c.windows, v.bounded);
    }
    choose false h =
        let a = add_window-AreOrdered c.size start n c.windows p h v.ordered v.bounded in
        record { ordered = a.0; bounded = a.1 }

size_lem : (now : ℕ) (c : TimeWindowCounter) → (clean_old_windows now c).size ≡ c.size
unfolding clean_old_windows
size_lem now c = ground arith

increment_all-IsValid :
    (calls : List (ℕ × ℕ)) (c : TimeWindowCounter)
    → 0 < c.size
    → IsValid c
    → IsValid (increment_all calls c)
unfolding increment_all increment_by with_amount
increment_all-IsValid [] c p v = v
increment_all-IsValid ((now, n) ∷ calls) c p v =
    let cleaned = clean_old_windows now c in
    let q : 0 < cleaned.size = rw (size_lem now c) p in
    increment_all-IsValid calls (with_amount (truncate now c.interval) n cleaned) q
      (with_amount-IsValid (truncate now c.interval) n cleaned q (clean-IsValid now c v))

increment_all_size :
    (calls : List (ℕ × ℕ)) (c : TimeWindowCounter) → (increment_all calls c).size ≡ c.size
unfolding increment_all increment_by with_amount
increment_all_size [] c = refl
increment_all_size ((now, n) ∷ calls) c =
    increment_all_size calls (increment_by now n c) ∙ size_lem now c

-- Whatever amounts are counted at whatever times, even if the clock runs backwards, a counter that was
-- made for at least one window never holds more windows than it was made for, and they stand in the
-- order of time, no two for the same time.
pub counter_bounds :
    (size interval : ℕ) (calls : List (ℕ × ℕ))
    → 0 < size
    → (length (increment_all calls (new_time_window_counter size interval)).windows ≤ size)
      × AreOrdered (increment_all calls (new_time_window_counter size interval)).windows
unfolding new_time_window_counter
counter_bounds size interval calls p =
    let c = new_time_window_counter size interval in
    let v = increment_all-IsValid calls c p (record { ordered = tt; bounded = omega arith }) in
    (omega (arith, v.bounded, increment_all_size calls c), v.ordered)
