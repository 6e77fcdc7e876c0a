-- ===== src/Timer/Deadline.antt =====
-- Deadlines of periods, and times that have passed, in nanoseconds.
use package_compile_sys.Common.{
  ℕ, ◌+◌, ◌-◌, ◌*◌, ◌^◌, ◌<◌, ◌≤◌, ◌≡◌, refl, ap, none, some, Bool, arith, Bool-cases, inl, inr,
  ltb,
}
use package_compile_sys.Common.Int.{pos, ◌+ℤ◌, ◌-ℤ◌, ◌*ℤ◌}
use package_compile_sys.Timer.{
  Timespec, TrcTime, fits_long, later, set_last, proc_sync, proc_msync, scaled, as_long, time_get,
}

abbrev pub total : Timespec → ℕ
total t = t.tv_sec * 1000000000 + t.tv_nsec

abbrev pub IsNormal : Timespec → Type 0
IsNormal t = t.tv_nsec < 1000000000

-- The seconds of a sum fit a `long`, with one more for the carry.
abbrev pub Fits : Timespec → Timespec → Type 0
Fits a b = a.tv_sec + b.tv_sec + 1 < 2 ^ 31

later_lem :
    (a b : Timespec)
    → IsNormal a
    → IsNormal b
    → Fits a b
    → (t : Timespec) × (later a b ≡ some t) × (total t ≡ total a + total b) × IsNormal t
unfolding later fits_long
later_lem a b ha hb fit = elim (Bool-cases (ltb 999999999 (a.tv_nsec + b.tv_nsec))) [
  | inl carry ↦ (
    record { tv_sec = a.tv_sec + b.tv_sec + 1; tv_nsec = a.tv_nsec + b.tv_nsec - 1000000000 },
    ground (arith, carry),
    ground (arith, carry),
    ground (arith, carry),
  )
  | inr plain ↦ (
    record { tv_sec = a.tv_sec + b.tv_sec; tv_nsec = a.tv_nsec + b.tv_nsec },
    ground (arith, plain),
    omega arith,
    ground (arith, plain),
  )
]

-- Where the nanoseconds of the clock and the period are below a second, and the sum of their seconds
-- and one more below 2 ^ 31, the deadline that trc_time_proc_sync sets is one period after the clock,
-- to the nanosecond, and its nanoseconds are below a second. trc_time_proc_msync does the same for
-- the period that it is given, which it keeps.
pub proc_sync-total :
    (now period : Timespec) (ptr : TrcTime)
    → IsNormal now
    → IsNormal ptr.tv
    → IsNormal period
    → Fits now ptr.tv
    → Fits now period
    → ((q : TrcTime) × (proc_sync (some now) ptr ≡ (some (pos 0), q))
        × (total q.last ≡ total now + total ptr.tv)
        × IsNormal q.last)
      × ((q : TrcTime) × (proc_msync (some now) (some period) ptr ≡ (some (pos 0), q))
          × (total q.last ≡ total now + total period)
          × IsNormal q.last
          × (q.tv ≡ period))
unfolding proc_sync proc_msync set_last
proc_sync-total now period ptr hn ht hp fit fit' =
    let (t, e, sum, normal) = later_lem now ptr.tv hn ht fit in
    let (t', e', sum', normal') = later_lem now period hn hp fit' in
    (
      (record ptr { last = t }, ap (set_last ptr) e, sum, normal),
      (
        record ptr { last = t'; tv = period },
        ap (set_last (record ptr { tv = period })) e',
        sum',
        normal',
        refl,
      ),
    )

sub_pos : (a b : ℕ) → b ≤ a → pos a -ℤ pos b ≡ pos (a - b)
unfolding ◌-ℤ◌
sub_pos a b h = ground arith

seconds : (k : ℕ) → pos k *ℤ pos 1000000000 ≡ pos (k * 1000000000)
unfolding ◌*ℤ◌
seconds k = ground arith

with_rest : (p n m : ℕ) → m ≤ p + n → pos p +ℤ (pos n -ℤ pos m) ≡ pos (p + n - m)
unfolding ◌+ℤ◌ ◌-ℤ◌
with_rest p n m h = ground arith

as_long-fits : (n : ℕ) → n < 2 ^ 31 → as_long (pos n) ≡ some (pos n)
unfolding as_long
as_long-fits n h = ground arith

as_long-over : (n : ℕ) → 2 ^ 31 ≤ n → as_long (pos n) ≡ none
unfolding as_long
as_long-over n h = ground arith

-- trc_time_get returns the nanoseconds that have passed since the last sync where they are fewer
-- than two seconds; from three seconds on the product overflows a 32-bit `long`.
time_get-total :
    (now : Timespec) (sync : Bool) (ptr : TrcTime)
    → IsNormal now
    → IsNormal ptr.last
    → total ptr.last ≤ total now
    → (total now < total ptr.last + 2000000000
        → (time_get (some now) sync ptr).0 ≡ some (pos (total now - total ptr.last)))
      × (ptr.last.tv_sec + 3 ≤ now.tv_sec → (time_get (some now) sync ptr).0 ≡ none)
unfolding time_get scaled
time_get-total now sync ptr hn hl le =
    let a = now.tv_sec in
    let b = ptr.last.tv_sec in
    let n = now.tv_nsec in
    let m = ptr.last.tv_nsec in
    let order : b ≤ a = omega arith in
    (
      (λ short.
          rw
            (
              sub_pos a b order,
              scaled,
              seconds (a - b),
              as_long-fits ((a - b) * 1000000000) (omega arith),
              with_rest ((a - b) * 1000000000) n m (omega arith),
              as_long-fits ((a - b) * 1000000000 + n - m) (omega arith),
            )
            (ap (λ t. some (pos t)) (omega arith))),
      (λ long.
          rw
            (
              sub_pos a b order,
              scaled,
              seconds (a - b),
              as_long-over ((a - b) * 1000000000) (omega arith),
            )
            refl),
    )
