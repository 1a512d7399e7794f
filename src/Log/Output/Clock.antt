-- ===== src/Log/Output/Clock.antt =====
-- The numbers that WriteTimestamp and Timer::Stream write.
use warlib.Base.{
  ℕ, ◌+◌, ◌*◌, ◌/◌, ◌^◌, ◌≤◌, ◌<◌, ◌≡◌, ◌⊎◌, inl, inr, refl, ltb, arith, if_elim, false,
}
use warlib.Log.Output.{
  second, time_parts, TimeUnit, minutes, seconds, milliseconds, microseconds, scale, choose,
}

-- The second and the milliseconds of a time stamp are the time in whole milliseconds, rounded down,
-- and the milliseconds are less than a second.
time_parts_lem :
    (time : ℕ)
    → ((time_parts time).0 * 1000 + (time_parts time).1 ≡ time / 10 ^ 6)
      × ((time_parts time).1 < 1000)
unfolding time_parts
time_parts_lem time =
    let e : ltb time (time / second * second) ≡ false = ground arith in (ground arith, ground arith)

-- The number that the timer writes, in the unit that it chooses, is the duration rounded down to that
-- unit; it is at least 6 and, but for minutes, less than 6000, except that a duration below 6
-- milliseconds is written in microseconds.
choose_lem :
    (d : ℕ)
    → let u = scale (choose d) in
      (d / u * u ≤ d)
      × (d < d / u * u + u)
      × ((6 ≤ d / u) ⊎ (d < 6 * scale milliseconds))
      × ((d / u < 6000) ⊎ (choose d ≡ minutes))
unfolding choose
choose_lem d =
    if_elim Reads (ltb 5 (d / scale minutes)) minutes _
      (λ m. (omega arith, omega arith, inl (ground arith), inr refl))
      (λ m.
        if_elim Reads (ltb 5 (d / scale seconds)) seconds _
          (λ s. (omega arith, omega arith, inl (ground arith), inl (ground arith)))
          (λ s.
            if_elim Reads (ltb 5 (d / scale milliseconds)) milliseconds microseconds
              (λ t. (omega arith, omega arith, inl (ground arith), inl (ground arith)))
              (λ t. (omega arith, omega arith, inr (ground arith), inl (ground arith)))))
  where
    Reads : TimeUnit → Type 0
    Reads u =
        (d / scale u * scale u ≤ d)
        × (d < d / scale u * scale u + scale u)
        × ((6 ≤ d / scale u) ⊎ (d < 6 * scale milliseconds))
        × ((d / scale u < 6000) ⊎ (u ≡ minutes))
