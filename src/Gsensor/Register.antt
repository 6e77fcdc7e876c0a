-- ===== src/Gsensor/Register.antt =====
-- The same file, registering and unregistering a function: what each returns and leaves on every
-- branch, and that both keep the table in order.
use package_compile_sys.Common.{
  ℕ, ◌+◌, ◌-◌, ◌%◌, ◌^◌, ◌<◌, ◌≡◌, inl, inr, refl, ap, ◌∙◌, Option, none, some, Bool, true, false,
  arith, get_or, set, take, lt→ltb, le→ltb, ==_refl, if◌then◌else◌, length-set,
}
use package_compile_sys.Common.Int.{ℤ, pos, negsuc}
use package_compile_sys.Gsensor.{
  Sensor, free_data, gsensor_fun_num, first_free, scan, gsensor_getregnum, register_at,
  start_thread, gsensor_create_thread, gsensor_regsenddatafunc,
}
use package_compile_sys.Gsensor.Registry.{
  IsRegistry, FreeAt, first_free-cases, holds, scan-free, scan-null, length-registered,
  length-registered-set, IsTable-set, zero_add,
}

pub start_thread-IsRegistry :
    (created : Bool) (s : Sensor) → IsRegistry s → IsRegistry (start_thread created s)
unfolding start_thread gsensor_create_thread
start_thread-IsRegistry created s r = ground (arith, r)

-- The state of the table behind a registration in slot `k`.
abbrev pub with_function : Sensor → ℕ → ℕ → Sensor
with_function s k f = record s {
  senddata = set s.senddata k (record { num = k + 1; send = some f });
  gsfun_count = (s.gsfun_count + 1) % 2 ^ 32;
}

gsensor_getregnum-found :
    (s : Sensor) (k : ℕ)
    → first_free s.senddata 0 ≡ k
    → k < gsensor_fun_num
    → gsensor_getregnum s ≡ pos (k + 1)
unfolding gsensor_getregnum
gsensor_getregnum-found s k e h = rw (e, lt→ltb k gsensor_fun_num h) refl

gsensor_getregnum-full :
    (s : Sensor) → first_free s.senddata 0 ≡ gsensor_fun_num → gsensor_getregnum s ≡ negsuc 0
unfolding gsensor_getregnum
gsensor_getregnum-full s e = rw e refl

-- The tests on the number pass, so that the loop decides.
regsenddatafunc-found :
    (created : Bool) (s : Sensor) (send : Option ℕ) (k : ℕ)
    → first_free s.senddata 0 ≡ k
    → k < gsensor_fun_num
    → gsensor_regsenddatafunc created s send ≡ elim (scan send s.senddata 0) as (λ _. ℤ × Sensor) [
      | none ↦ (negsuc 0, s)
      | some i ↦ register_at created s send (k + 1) i
    ]
unfolding gsensor_regsenddatafunc
regsenddatafunc-found created s send k e h =
    rw
      (
        gsensor_regsenddatafunc,
        gsensor_getregnum-found s k e h,
        le→ltb (k + 1) 1 (omega arith),
        le→ltb gsensor_fun_num (k + 1) (omega arith),
      )
      refl

regsenddatafunc-full :
    (created : Bool) (s : Sensor) (send : Option ℕ)
    → first_free s.senddata 0 ≡ gsensor_fun_num
    → gsensor_regsenddatafunc created s send ≡ (negsuc 0, s)
unfolding gsensor_regsenddatafunc
regsenddatafunc-full created s send e =
    rw (gsensor_regsenddatafunc, gsensor_getregnum-full s e) refl

register_at-free :
    (created : Bool) (s : Sensor) (f k : ℕ)
    → get_or s.senddata k free_data ≡ free_data
    → register_at created s (some f) (k + 1) k
      ≡ (pos (k + 1), start_thread created (with_function s k f))
unfolding register_at
register_at-free created s f k e =
    let m : k + 1 - 1 ≡ k = omega arith in rw (m, ==_refl k, e, m) refl

-- On a table in order, `gsensor_regsenddatafunc` refuses NULL, and refuses every function when no
-- slot is free. Else it refuses a function that stands before the lowest free slot, and puts any
-- other one into that slot, returns the number of the slot and starts the thread if it does not
-- run. A refusal returns -1 and changes nothing.
pub gsensor_regsenddatafunc_lem :
    (created : Bool) (s : Sensor) (f : ℕ)
    → IsRegistry s
    → (gsensor_regsenddatafunc created s none ≡ (negsuc 0, s))
      × (first_free s.senddata 0 ≡ gsensor_fun_num
          → gsensor_regsenddatafunc created s (some f) ≡ (negsuc 0, s))
      × ((k : ℕ)
          → FreeAt s.senddata 0 k
          → gsensor_regsenddatafunc created s (some f) ≡ (
              if holds f (take k s.senddata)
              then (negsuc 0, s)
              else (pos (k + 1), start_thread created (with_function s k f))))
gsensor_regsenddatafunc_lem created s f r =
    (null_refused, regsenddatafunc-full created s (some f), placed)
  where
    null_refused : gsensor_regsenddatafunc created s none ≡ (negsuc 0, s)
    null_refused = elim (first_free-cases s.senddata 0 r.table) [
      | inl all ↦ regsenddatafunc-full created s none (omega (arith, all, r.size))
      | inr (k, a) ↦
          regsenddatafunc-found created s none k (omega (arith, a.found))
            (omega (arith, a.inside, r.size))
          ∙ rw (scan-null s.senddata 0 r.table (omega (arith, a.inside, a.found))) refl
    ]

    placed :
        (k : ℕ)
        → FreeAt s.senddata 0 k
        → gsensor_regsenddatafunc created s (some f) ≡ (
            if holds f (take k s.senddata)
            then (negsuc 0, s)
            else (pos (k + 1), start_thread created (with_function s k f)))
    placed k a =
        regsenddatafunc-found created s (some f) k (omega (arith, a.found))
          (omega (arith, a.inside, r.size))
        ∙ rw (scan-free f s.senddata 0 k r.table a.found, zero_add k)
            (elim (holds f (take k s.senddata))
              as (λ b.
                elim (if b then none else some k) as (λ _. ℤ × Sensor) [
                  | none ↦ (negsuc 0, s)
                  | some i ↦ register_at created s (some f) (k + 1) i
                ]
                ≡ (if b
                    then (negsuc 0, s)
                    else (pos (k + 1), start_thread created (with_function s k f)))) [
                      | true ↦ refl
                      | false ↦ register_at-free created s f k a.free
                    ])

pub with_function-IsRegistry :
    (s : Sensor) (k f : ℕ) → IsRegistry s → FreeAt s.senddata 0 k → IsRegistry (with_function s k f)
with_function-IsRegistry s k f r a = record {
  size = length-set s.senddata k _ ∙ r.size;
  table =
      IsTable-set s.senddata 0 k _ r.table
        (inr (f, ap (λ n. record { num = n; send = some f }) (omega arith)));
  count = omega (
    arith,
    length-registered-set s.senddata (k + 1) k f a.free a.inside,
    length-registered s.senddata,
    r.count,
    r.size,
  );
}

pub regsenddatafunc-IsRegistry :
    (created : Bool) (s : Sensor) (send : Option ℕ)
    → IsRegistry s
    → IsRegistry (gsensor_regsenddatafunc created s send).1
regsenddatafunc-IsRegistry created s none r = rw (gsensor_regsenddatafunc_lem created s 0 r).0 r
regsenddatafunc-IsRegistry created s (some f) r = elim (first_free-cases s.senddata 0 r.table) [
  | inl all ↦ rw (regsenddatafunc-full created s (some f) (omega (arith, all, r.size))) r
  | inr (k, a) ↦
      rw ((gsensor_regsenddatafunc_lem created s f r).2 k a)
        (elim (holds f (take k s.senddata))
          as (λ b.
            IsRegistry
              (if◌then◌else◌ {A = ℤ × Sensor} b (negsuc 0, s)
                (pos (k + 1), start_thread created (with_function s k f))).1) [
                  | true ↦ r
                  | false ↦ start_thread-IsRegistry created _ (with_function-IsRegistry s k f r a)
                ])
]
