-- ===== src/Gsensor/Unregister.antt =====
-- The same file, taking a function out of the table: `gsensor_unregsenddatafunc` on every branch, and
-- what a registration that is taken back leaves.
use package_compile_sys.Common.{
  ℕ, zero, suc, ◌+◌, ◌-◌, ◌%◌, ◌^◌, ◌≤◌, ◌<◌, ◌≡◌, inl, inr, refl, ap, sym, subst, ◌∙◌, List, [],
  ◌∷◌, Option, none, some, Bool, true, false, ltb, ◌==◌, arith, length, get_or, set, take,
  Bool-cases, get_or-set_self, ltb→lt, le→ltb, le→ltb, if◌then◌else◌, ◌&&◌, eq→==, length-set,
}
use package_compile_sys.Common.Int.{ℤ, pos, negsuc}
use package_compile_sys.Gsensor.{
  SendData, Sensor, free_data, gsensor_fun_num, first_used, start_thread, gsensor_create_thread,
  stop_thread, gsensor_enable, gsensor_regsenddatafunc, gsensor_unregsenddatafunc,
}
use package_compile_sys.Gsensor.Register.{gsensor_regsenddatafunc_lem, with_function}
use package_compile_sys.Gsensor.Registry.{
  IsTable, registered, IsRegistry, FreeAt, holds, length-registered, length-registered-unset,
  IsTable-set, IsTable-get, zero_add,
}

stop_thread-IsRegistry :
    (ioctl : Option ℕ) (s : Sensor) → IsRegistry s → IsRegistry (stop_thread ioctl s)
unfolding stop_thread gsensor_enable
stop_thread-IsRegistry none s r = ground (arith, r)
stop_thread-IsRegistry (some n) s r = ground (arith, r)

-- The state of the table without the function of slot `k`.
abbrev pub without_function : Sensor → ℕ → Sensor
without_function s k = record s {
  senddata = set s.senddata k free_data;
  gsfun_count = (s.gsfun_count + (2 ^ 32 - 1)) % 2 ^ 32;
}

without_function-IsRegistry :
    (s : Sensor) (k f : ℕ)
    → IsRegistry s
    → k < gsensor_fun_num
    → get_or s.senddata k free_data ≡ record { num = k + 1; send = some f }
    → IsRegistry (without_function s k)
without_function-IsRegistry s k f r h e = record {
  size = length-set s.senddata k _ ∙ r.size;
  table = IsTable-set s.senddata 0 k _ r.table (inl refl);
  count = omega (
    arith,
    length-registered-unset s.senddata (k + 1) k f e (omega (arith, h, r.size)),
    length-registered s.senddata,
    r.count,
    r.size,
  );
}

-- The table is searched for a slot in use: none is found just when no function is registered.
abbrev pub is_empty : List ℕ → Bool
is_empty [] = true
is_empty (x ∷ xs) = false

first_used-bounds :
    (ds : List SendData) (i : ℕ) → (i ≤ first_used ds i) × (first_used ds i ≤ i + length ds)
unfolding first_used
first_used-bounds [] i = omega arith
first_used-bounds (d ∷ ds) i = ground (arith, first_used-bounds ds (i + 1))

first_used-registered :
    (ds : List SendData) (i : ℕ)
    → IsTable i ds
    → (first_used ds i == i + length ds) ≡ is_empty (registered ds)
unfolding first_used registered
first_used-registered [] i t = eq→== _ _ (omega arith)
first_used-registered (d ∷ ds) i (inl e, t) =
    rw e (rw (← first_used-registered ds (i + 1) t) (ground arith))
first_used-registered (d ∷ ds) i (inr (f, e), t) = rw e (ground arith)

-- The thread is told to stop just when it runs and no function is left.
stop_thread_lem :
    (ioctl : Option ℕ) (s : Sensor)
    → IsRegistry s
    → stop_thread ioctl s ≡ (
        if s.gsthread_state && is_empty (registered s.senddata)
        then record s {
          gsthread_state = false;
          gsrelease_state = true;
          gstate = elim ioctl [ none ↦ s.gstate | some n ↦ false ];
        }
        else s)
unfolding stop_thread gsensor_enable
stop_thread_lem none s r =
    rw (stop_thread, ← first_used-registered s.senddata 0 r.table, zero_add, r.size) (ground arith)
stop_thread_lem (some n) s r =
    rw (stop_thread, ← first_used-registered s.senddata 0 r.table, zero_add, r.size) (ground arith)

add_sub_one : (k : ℕ) → k + 1 - 1 ≡ k
add_sub_one k = omega arith

-- Behind the tests on the number.
unregsenddatafunc-used :
    (ioctl : Option ℕ) (s : Sensor) (k : ℕ)
    → k < gsensor_fun_num
    → gsensor_unregsenddatafunc ioctl s (pos (k + 1))
      ≡ elim (get_or s.senddata k free_data).send as (λ _. ℤ × Sensor) [
        | none ↦ (negsuc 0, s)
        | some f ↦ (pos 0, stop_thread ioctl (without_function s k))
      ]
unfolding gsensor_unregsenddatafunc
unregsenddatafunc-used ioctl s k h =
    rw
      (
        gsensor_unregsenddatafunc,
        le→ltb (k + 1) 1 (omega arith),
        le→ltb gsensor_fun_num (k + 1) (omega arith),
      )
      (subst
        (λ n.
          elim (get_or s.senddata n free_data).send as (λ _. ℤ × Sensor) [
            | none ↦ (negsuc 0, s)
            | some f ↦ (pos 0, stop_thread ioctl (without_function s n))
          ]
          ≡ elim (get_or s.senddata k free_data).send as (λ _. ℤ × Sensor) [
            | none ↦ (negsuc 0, s)
            | some f ↦ (pos 0, stop_thread ioctl (without_function s k))
          ])
        (sym (add_sub_one k)) refl)

-- `gsensor_unregsenddatafunc` refuses a number out of range and the number of a free slot, with -1
-- and nothing changed.
pub gsensor_unregsenddatafunc_lem :
    (ioctl : Option ℕ) (s : Sensor) (k f : ℕ)
    → IsRegistry s
    → ((n : ℕ) → gsensor_unregsenddatafunc ioctl s (negsuc n) ≡ (negsuc 0, s))
      × (gsensor_unregsenddatafunc ioctl s (pos 0) ≡ (negsuc 0, s))
      × (gsensor_fun_num ≤ k → gsensor_unregsenddatafunc ioctl s (pos (k + 1)) ≡ (negsuc 0, s))
      × (get_or s.senddata k free_data ≡ free_data
          → gsensor_unregsenddatafunc ioctl s (pos (k + 1)) ≡ (negsuc 0, s))
      × (k < gsensor_fun_num
          → get_or s.senddata k free_data ≡ record { num = k + 1; send = some f }
          → gsensor_unregsenddatafunc ioctl s (pos (k + 1)) ≡ (
            pos 0,
            if s.gsthread_state && is_empty (registered (set s.senddata k free_data))
                then record (without_function s k) {
                  gsthread_state = false;
                  gsrelease_state = true;
                  gstate = elim ioctl [ none ↦ s.gstate | some n ↦ false ];
                }
                else without_function s k,
          ))
unfolding gsensor_unregsenddatafunc
gsensor_unregsenddatafunc_lem ioctl s k f r = (
  λ n. refl,
  refl,
  λ h. ground arith,
  λ e. elim (Bool-cases (ltb k gsensor_fun_num)) [
    | inl a ↦ unregsenddatafunc-used ioctl s k (ltb→lt k _ a) ∙ rw e refl
    | inr a ↦ ground (arith, a)
  ],
  λ h e.
      unregsenddatafunc-used ioctl s k h
      ∙ rw
          (
            e,
            stop_thread_lem ioctl (without_function s k) (without_function-IsRegistry s k f r h e),
          )
          refl,
)

-- Behind all the tests, and before the thread is stopped.
unregsenddatafunc-some :
    (ioctl : Option ℕ) (s : Sensor) (k f : ℕ)
    → k < gsensor_fun_num
    → get_or s.senddata k free_data ≡ record { num = k + 1; send = some f }
    → gsensor_unregsenddatafunc ioctl s (pos (k + 1))
      ≡ (pos 0, stop_thread ioctl (without_function s k))
unregsenddatafunc-some ioctl s k f h e = unregsenddatafunc-used ioctl s k h ∙ rw e refl

unregsenddatafunc-IsRegistry_at :
    (ioctl : Option ℕ) (s : Sensor) (k : ℕ)
    → IsRegistry s
    → IsRegistry (gsensor_unregsenddatafunc ioctl s (pos (k + 1))).1
unregsenddatafunc-IsRegistry_at ioctl s k r = elim (Bool-cases (ltb k gsensor_fun_num)) [
  | inr a ↦ rw ((gsensor_unregsenddatafunc_lem ioctl s k 0 r).2 (ground (arith, a))) r
  | inl a ↦ elim (IsTable-get s.senddata 0 k r.table (omega (arith, ltb→lt k _ a, r.size))) [
    | inl e ↦ rw ((gsensor_unregsenddatafunc_lem ioctl s k 0 r).3 e) r
    | inr (f, e) ↦
        let h : k < gsensor_fun_num = ltb→lt k _ a in
        let e' : get_or s.senddata k free_data ≡ record { num = k + 1; send = some f } =
          e ∙ ap (λ n. record { num = n; send = some f }) (omega arith) in
        rw (unregsenddatafunc-some ioctl s k f h e')
          (stop_thread-IsRegistry ioctl _ (without_function-IsRegistry s k f r h e'))
  ]
]

pub unregsenddatafunc-IsRegistry :
    (ioctl : Option ℕ) (s : Sensor) (num : ℤ)
    → IsRegistry s
    → IsRegistry (gsensor_unregsenddatafunc ioctl s num).1
unregsenddatafunc-IsRegistry ioctl s (negsuc n) r =
    rw ((gsensor_unregsenddatafunc_lem ioctl s 0 0 r).0 n) r
unregsenddatafunc-IsRegistry ioctl s (pos zero) r =
    rw (gsensor_unregsenddatafunc_lem ioctl s 0 0 r).1 r
unregsenddatafunc-IsRegistry ioctl s (pos (suc k)) r =
    subst (λ n. IsRegistry (gsensor_unregsenddatafunc ioctl s (pos n)).1) (omega arith)
      (unregsenddatafunc-IsRegistry_at ioctl s k r)

start_thread-senddata :
    (created : Bool) (s : Sensor)
    → ((start_thread created s).senddata ≡ s.senddata)
      × ((start_thread created s).gsfun_count ≡ s.gsfun_count)
unfolding start_thread gsensor_create_thread
start_thread-senddata created s = ground arith

stop_thread-senddata :
    (ioctl : Option ℕ) (s : Sensor)
    → ((stop_thread ioctl s).senddata ≡ s.senddata)
      × ((stop_thread ioctl s).gsfun_count ≡ s.gsfun_count)
unfolding stop_thread gsensor_enable
stop_thread-senddata none s = ground arith
stop_thread-senddata (some n) s = ground arith

-- The table that a slot was put into and taken out of again is the same.
set-unset :
    (ds : List SendData) (k : ℕ) (d : SendData)
    → get_or ds k free_data ≡ free_data
    → set (set ds k d) k free_data ≡ ds
set-unset [] k d e = refl
set-unset (d' ∷ ds) zero d e = ap (λ x. x ∷ ds) (sym e)
set-unset (d' ∷ ds) (suc k) d e = ap (λ xs. d' ∷ xs) (set-unset ds k d e)

-- A function that `gsensor_regsenddatafunc` accepts gets the number of the lowest free slot, and
-- `gsensor_unregsenddatafunc` of this number then succeeds and leaves the table and the count as
-- they were before.
pub unregsenddatafunc-regsenddatafunc :
    (created : Bool) (ioctl : Option ℕ) (s : Sensor) (f k : ℕ)
    → IsRegistry s
    → FreeAt s.senddata 0 k
    → holds f (take k s.senddata) ≡ false
    → (t : Sensor) × (gsensor_regsenddatafunc created s (some f) ≡ (pos (k + 1), t))
      × ((u : Sensor) × (gsensor_unregsenddatafunc ioctl t (pos (k + 1)) ≡ (pos 0, u))
          × (u.senddata ≡ s.senddata)
          × (u.gsfun_count ≡ s.gsfun_count))
unregsenddatafunc-regsenddatafunc created ioctl s f k r a h =
    let t = start_thread created (with_function s k f) in
    let same = start_thread-senddata created (with_function s k f) in
    let put : get_or t.senddata k free_data ≡ record { num = k + 1; send = some f } =
      rw same.0 (get_or-set_self s.senddata k _ free_data a.inside) in
    let stop = stop_thread-senddata ioctl (without_function t k) in
    (
      t,
      (gsensor_regsenddatafunc_lem created s f r).2 k a ∙ rw h refl,
      (
        stop_thread ioctl (without_function t k),
        unregsenddatafunc-some ioctl t k f (omega (arith, a.inside, r.size)) put,
        stop.0 ∙ rw same.0 (set-unset s.senddata k _ a.free),
        stop.1 ∙ omega (arith, same.1, r.count, length-registered s.senddata, r.size),
      ),
    )
