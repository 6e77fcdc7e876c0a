-- ===== src/Gsensor/Stop.antt =====
-- The same file, the end of the thread: it ends once the release flag is set.
use package_compile_sys.Common.{
  ℕ, zero, suc, ◌+◌, ◌≤◌, ◌<◌, ◌≡◌, refl, ◌⊎◌, inl, inr, List, [], ◌∷◌, ◌++◌, Option, none, some,
  true, false, arith, length, Bool-cases,
}
use package_compile_sys.Common.Int.{ℤ}
use package_compile_sys.Gsensor.{SensorAxis, Sensor, gsensor_enable}
use package_compile_sys.Gsensor.Events.{
  ev_abs, ev_syn, ev_unknown, Polled, idle, read_error, event, Round, Delivery, is_stopped,
  has_axes, ReadResult, gsensor_readevent, Loop, read_next, first_read, go_on, thread_round,
  thread_loop, thread_exit, gsensor_thread, zero_axis,
}

-- A round in which another thread sets the flag.
abbrev pub Releases : Round → Type 0
Releases r = (s : Sensor) → (r.others s).gsrelease_state ≡ true

-- The call returned: before the round `r` with fewer than `n` rounds in front of it left, or there,
-- with -1.
record Ended (r : Round) (n : ℕ) (o : Option ReadResult) : Type 0 where
  res : ReadResult
  returns : o ≡ some res
  left :
      ((rs : List Round) × (res.rest ≡ rs ++ (r ∷ [])) × (length rs < n))
      ⊎ ((res.rest ≡ []) × (res.ret ≡ none) × (res.after.gsrelease_state ≡ true))

Ended-suc : (r : Round) (n : ℕ) (o : Option ReadResult) → Ended r n o → Ended r (suc n) o
Ended-suc r n o e = record {
  res = e.res;
  returns = e.returns;
  left =
      elim e.left
        as (λ _.
          ((rs : List Round) × (e.res.rest ≡ rs ++ (r ∷ [])) × (length rs < suc n))
          ⊎ ((e.res.rest ≡ []) × (e.res.ret ≡ none) × (e.res.after.gsrelease_state ≡ true))) [
            | inl (rs, q, h) ↦ inl (rs, q, omega arith)
            | inr h ↦ inr h
          ];
}

-- A call that returns in this round.
Ended-here :
    (r : Round) (rs : List Round) (res : ReadResult)
    → res.rest ≡ rs ++ (r ∷ [])
    → Ended r (suc (length rs)) (some res)
Ended-here r rs res e = record { res = res; returns = refl; left = inl (rs, e, omega arith) }

-- A round in which the call is not stopped, with what the following rounds do.
polled-Ended :
    (scale : ℤ → ℕ) (r : Round) (rs : List Round) (others : Sensor → Sensor) (p : Polled)
    (s : Sensor) (acc : SensorAxis)
    → is_stopped (others s) ≡ false
    → ((t : Sensor) (acc : SensorAxis)
        → Ended r (length rs) (gsensor_readevent scale (rs ++ (r ∷ [])) t acc 1))
    → Ended r (suc (length rs)) (
        gsensor_readevent scale (record { others = others; polled = p } ∷ (rs ++ (r ∷ []))) s acc 1)
unfolding gsensor_readevent
polled-Ended scale r rs others idle s acc h ih =
    rw (gsensor_readevent, h) (Ended-suc r _ _ (ih (others s) acc))
polled-Ended scale r rs others read_error s acc h ih =
    rw (gsensor_readevent, h) (Ended-here r rs _ refl)
polled-Ended scale r rs others (event (ev_abs axis value)) s acc h ih =
    rw (gsensor_readevent, h) (Ended-suc r _ _ (ih _ _))
polled-Ended scale r rs others (event ev_unknown) s acc h ih =
    rw (gsensor_readevent, h) (Ended-suc r _ _ (ih (others s) acc))
polled-Ended scale r rs others (event ev_syn) s acc h ih =
    rw (gsensor_readevent, h)
      (elim (Bool-cases (has_axes (others s))) [
        | inl a ↦ rw a (Ended-here r rs _ refl)
        | inr a ↦ rw a (Ended-suc r _ _ (ih (others s) acc))
      ])

released-is_stopped : (s : Sensor) → s.gsrelease_state ≡ true → is_stopped s ≡ true
unfolding is_stopped
released-is_stopped s h = rw h refl

readevent-Ended :
    (scale : ℤ → ℕ) (r : Round) (rs : List Round)
    → Releases r
    → (s : Sensor) (acc : SensorAxis)
    → Ended r (length rs) (gsensor_readevent scale (rs ++ (r ∷ [])) s acc 1)
unfolding gsensor_readevent
readevent-Ended scale r [] rel s acc =
    rw (gsensor_readevent, released-is_stopped (r.others s) (rel s))
      record { res = _; returns = refl; left = inr (refl, refl, rel s) }
readevent-Ended scale r (q ∷ rs) rel s acc = elim (Bool-cases (is_stopped (q.others s))) [
  | inl a ↦ rw (gsensor_readevent, a) (Ended-here r rs _ refl)
  | inr a ↦ polled-Ended scale r rs q.others q.polled s acc a (readevent-Ended scale r rs rel)
]

-- What a round of the thread's loop leaves: fewer rounds, or the flag set.
record Turned (r : Round) (n : ℕ) (o : Option Loop) : Type 0 where
  loop : Loop
  returns : o ≡ some loop
  left :
      ((rs : List Round) × (loop.rounds ≡ rs ++ (r ∷ [])) × (length rs < n))
      ⊎ (loop.sensor.gsrelease_state ≡ true)

Turned-suc : (r : Round) (m n : ℕ) (o : Option Loop) → m ≤ n → Turned r m o → Turned r n o
Turned-suc r m n o h t = record {
  loop = t.loop;
  returns = t.returns;
  left =
      elim t.left
        as (λ _.
          ((rs : List Round) × (t.loop.rounds ≡ rs ++ (r ∷ [])) × (length rs < n))
          ⊎ (t.loop.sensor.gsrelease_state ≡ true)) [
            | inl (rs, q, g) ↦ inl (rs, q, omega arith)
            | inr g ↦ inr g
          ];
}

read_next-Turned :
    (scale : ℤ → ℕ) (r : Round) (rs : List Round)
    → Releases r
    → (l : Loop) → l.rounds ≡ rs ++ (r ∷ [])
    → Turned r (length rs) (read_next scale l)
unfolding read_next
read_next-Turned scale r rs rel l e =
    let d = readevent-Ended scale r rs rel l.sensor l.new_gs_data in
    rw (read_next, e, d.returns)
      record {
        loop = _;
        returns = refl;
        left =
            elim d.left
              as (λ _.
                ((us : List Round) × (d.res.rest ≡ us ++ (r ∷ [])) × (length us < length rs))
                ⊎ (d.res.after.gsrelease_state ≡ true)) [
                  | inl (us, q, g) ↦ inl (us, q, g)
                  | inr (_, _, g) ↦ inr g
                ];
      }

-- Behind the first read, which is stopped for good only when it failed.
go_on-Turned :
    (scale : ℤ → ℕ) (r : Round) (n : ℕ) (o : Option ReadResult)
    → Releases r
    → (l : Loop) (d : Ended r n o) → (ret : Option ℕ) → d.res.ret ≡ ret
    → Turned r n (go_on scale l d.res ret)
unfolding go_on first_read
go_on-Turned scale r n o rel l d none e = record {
  loop = _;
  returns = refl;
  left =
      elim d.left
        as (λ _.
          ((us : List Round) × (d.res.rest ≡ us ++ (r ∷ [])) × (length us < n))
          ⊎ (d.res.after.gsrelease_state ≡ true)) [ inl h ↦ inl h | inr (_, _, g) ↦ inr g ];
}
go_on-Turned scale r n o rel l d (some ret) e =
    elim d.left as (λ _. Turned r n (go_on scale l d.res (some ret))) [
      | inl (us, q, g) ↦
          Turned-suc r (length us) n _ (omega arith) (read_next-Turned scale r us rel _ q)
      | inr (_, q, _) ↦ cc
    ]

thread_round-Turned :
    (scale : ℤ → ℕ) (r : Round) (rs : List Round)
    → Releases r
    → (l : Loop) → l.rounds ≡ rs ++ (r ∷ [])
    → Turned r (length rs) (thread_round scale l)
unfolding thread_round
thread_round-Turned scale r rs rel l e = elim (Bool-cases l.init_sensor_data) [
  | inl i ↦ rw (thread_round, i) (read_next-Turned scale r rs rel l e)
  | inr i ↦
      let d = readevent-Ended scale r rs rel l.sensor l.sensor.gsdata in
      rw (thread_round, i, e, d.returns) (go_on-Turned scale r (length rs) _ rel l d d.res.ret refl)
]

pub thread_loop-released :
    (scale : ℤ → ℕ) (fuel : ℕ) (l : Loop)
    → 0 < fuel
    → l.sensor.gsrelease_state ≡ true
    → thread_loop fuel scale l ≡ some l
unfolding thread_loop
thread_loop-released scale zero l h e = absurd (omega arith)
thread_loop-released scale (suc fuel) l h e = simp (thread_loop, e) refl

-- The loop ends once a round sets the flag, with the flag set.
thread_loop-ends :
    (scale : ℤ → ℕ) (r : Round) (fuel : ℕ) (rs : List Round)
    → Releases r
    → (l : Loop) → l.rounds ≡ rs ++ (r ∷ [])
    → length rs + 2 ≤ fuel
    → (m : Loop) × (thread_loop fuel scale l ≡ some m) × (m.sensor.gsrelease_state ≡ true)
unfolding thread_loop
thread_loop-ends scale r zero rs rel l e h = absurd (omega arith)
thread_loop-ends scale r (suc fuel) rs rel l e h = elim (Bool-cases l.sensor.gsrelease_state) [
  | inl a ↦ (l, thread_loop-released scale (suc fuel) l (omega arith) a, a)
  | inr a ↦
      let d = thread_round-Turned scale r rs rel l e in
      rw (thread_loop, a, d.returns)
        (elim d.left [
          | inl (us, q, g) ↦ thread_loop-ends scale r fuel us rel d.loop q (omega arith)
          | inr g ↦ (d.loop, thread_loop-released scale fuel d.loop (omega arith) g, g)
        ])
]

-- Let another thread set `gsrelease_state` at some time while `gsensor_thread` reads. Then, whatever
-- the device and the other threads did before, the thread ends and leaves both flags of the thread
-- cleared; as fuel, two rounds of its loop more than there are events before suffice.
pub gsensor_thread-ends :
    (scale : ℤ → ℕ) (ioctl : Option ℕ) (r : Round) (fuel : ℕ) (rs : List Round) (s : Sensor)
    → Releases r
    → length rs + 2 ≤ fuel
    → (u : Sensor) × (calls : List Delivery) × (gsensor_thread fuel scale ioctl (rs ++ (r ∷ [])) s
        ≡ some (u, calls))
      × (u.gsthread_state ≡ false)
      × (u.gsrelease_state ≡ false)
unfolding gsensor_thread gsensor_enable thread_exit
gsensor_thread-ends scale none r fuel rs s rel h = (_, _, refl, refl, refl)
gsensor_thread-ends scale (some n) r fuel rs s rel h =
    let (m, e, _) =
      thread_loop-ends scale r fuel rs rel
        (record {
          sensor = record s { gstate = true };
          init_sensor_data = false;
          new_gs_data = zero_axis;
          calls = [];
          rounds = rs ++ (r ∷ []);
        })
        refl h in
    (thread_exit m.sensor, m.calls, rw (gsensor_thread, e) refl, refl, refl)
