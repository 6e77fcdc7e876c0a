-- ===== src/Gsensor/Send.antt =====
-- The same file, what a sample does: each function of the table is called once with it, and a sample
-- has the latest value of each axis.
use package_compile_sys.Common.{
  ℕ, suc, ◌+◌, ◌^◌, ◌<◌, ◌≡◌, refl, ap, subst, inl, inr, List, [], ◌∷◌, false, leb, ◌==◌, arith,
  length, Bool-cases,
}
use package_compile_sys.Gsensor.{SensorAxis, SendData, Sensor}
use package_compile_sys.Gsensor.Events.{Delivery, send_all, send_sample}
use package_compile_sys.Gsensor.Registry.{IsTable, registered, IsRegistry, length-registered}

-- A call with the sample for each function.
unfoldable pub to_each : SensorAxis → List ℕ → List Delivery
to_each acc [] = []
to_each acc (f ∷ fs) = record { function = f; data_sent = acc } ∷ to_each acc fs

no_length : (l : List ℕ) → length l ≡ 0 → l ≡ []
no_length [] e = refl
no_length (x ∷ xs) e = absurd (omega arith)

send_all-to_each :
    (acc : SensorAxis) (ds : List SendData) (i n c : ℕ)
    → IsTable i ds
    → c ≡ n + length (registered ds)
    → 0 < length (registered ds)
    → send_all c acc ds n ≡ to_each acc (registered ds)
unfolding send_all to_each registered
send_all-to_each acc [] i n c t e h = refl
send_all-to_each acc (d ∷ ds) i n c (inl q, t) e h =
    let e' : c ≡ n + length (registered ds) =
      subst (λ x. c ≡ n + length (registered (x ∷ ds))) q e in
    let h' : 0 < length (registered ds) = subst (λ x. 0 < length (registered (x ∷ ds))) q h in
    let m : (c == n) ≡ false = ground arith in
    rw (q, m) (send_all-to_each acc ds (i + 1) n c t e' h')
send_all-to_each acc (d ∷ ds) i n c (inr (f, q), t) e h =
    let e' : c ≡ n + suc (length (registered ds)) =
      subst (λ x. c ≡ n + length (registered (x ∷ ds))) q e in
    let m : (d.num == 0) ≡ false = ground (arith, ap (λ (x : SendData). x.num) q) in
    rw (q, m)
      (ap (λ l. record { function = f; data_sent = acc } ∷ l)
        (elim (Bool-cases (c == n + 1)) [
          | inl last ↦ rw (last, no_length (registered ds) (ground arith)) refl
          | inr more ↦
              rw more (send_all-to_each acc ds (i + 1) (n + 1) c t (omega arith) (ground arith))
        ]))

-- On a table in order a sample goes to every registered function once, in the order of the slots,
-- and to nothing else.
pub send_sample_lem :
    (s : Sensor) (acc : SensorAxis)
    → IsRegistry s
    → send_sample s acc ≡ to_each acc (registered s.senddata)
unfolding send_sample to_each
send_sample_lem s acc r = elim (Bool-cases (s.gsfun_count == 0)) [
  | inl z ↦ rw (z, no_length (registered s.senddata) (ground (arith, r.count))) refl
  | inr p ↦
      let big : leb (2 ^ 31) s.gsfun_count ≡ false =
        ground (arith, r.count, r.size, length-registered s.senddata) in
      rw (p, big)
        (send_all-to_each acc s.senddata 0 0 s.gsfun_count r.table (omega (arith, r.count))
          (ground (arith, r.count)))
]
