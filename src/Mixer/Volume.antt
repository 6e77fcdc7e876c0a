-- ===== src/Mixer/Volume.antt =====
-- The same file, setting the volume.
use package_compile_sys.Common.{
  ℕ, ◌+◌, ◌*◌, ◌^◌, ◌<◌, ◌≤◌, ◌≡◌, ◌≢◌, ◌⊎◌, refl, ap, sym, subst, ◌∙◌, inl, inr, Option, none,
  some, Bool, true, false, arith, Bool-cases, eq→==, ==→eq, ne→==,
}
use package_compile_sys.Common.Int.{ℤ, pos, negsuc, ◌+ℤ◌, eqb_ℤ, eq_of_parts, pos_part, neg_part}
use package_compile_sys.Mixer.{
  Alsa, IsAlsa, channel_all, channel_left, channel_right, MixerCtrl, half, wrap_long,
  mixer_ctrl_sync, mixer_ctrl_get_vol, mixer_ctrl_get_channel, set_result, set_channel_vol,
  mixer_ctrl_set_vol,
}

pub eqb_ℤ→eq : (a b : ℤ) → eqb_ℤ a b ≡ true → a ≡ b
eqb_ℤ→eq a b h = eq_of_parts a b (==→eq _ _ h)

pub ne→eqb_ℤ : (a b : ℤ) → a ≢ b → eqb_ℤ a b ≡ false
ne→eqb_ℤ a b h = ne→== _ _ (λ e. h (eq_of_parts a b e))

pub eqb_ℤ_refl : (a : ℤ) → eqb_ℤ a a ≡ true
eqb_ℤ_refl a = eq→== _ _ refl

-- Twice the volume fits a `long`.
abbrev pub DoubleFits : ℤ → Type 0
DoubleFits a = (pos_part a < 2 ^ 30) × (neg_part a ≤ 2 ^ 30)

pos_double : (n : ℕ) → n < 2 ^ 30 → wrap_long (pos n +ℤ pos n) ≡ pos (2 * n)
unfolding ◌+ℤ◌ wrap_long
pos_double n h = ground arith

negsuc_double : (n : ℕ) → n < 2 ^ 30 → wrap_long (negsuc n +ℤ negsuc n) ≡ negsuc (2 * n + 1)
unfolding ◌+ℤ◌ wrap_long
negsuc_double n h = ground arith

true_ne_false : true ≢ false
true_ne_false e = cc

pub eqb_ℤ→ne : (a b : ℤ) → eqb_ℤ a b ≡ false → a ≢ b
eqb_ℤ→ne a b h e = true_ne_false (sym (ap (λ x. eqb_ℤ x b) e ∙ eqb_ℤ_refl b) ∙ h)

-- The mean of equal volumes.
pub half_double : (a : ℤ) → DoubleFits a → half (wrap_long (a +ℤ a)) ≡ a
unfolding half
half_double (pos n) fit = ap half (pos_double n fit.0) ∙ ap pos (omega arith)
half_double (negsuc n) fit =
    ap half (negsuc_double n (omega (arith, fit.1))) ∙ ap negsuc (omega arith)

-- What `_mixer_ctrl_sync` reads off the two volumes.
module _ {C : Type 0} (alsa : Alsa C) where
  pub sync-all :
      (card : C) (ptr : MixerCtrl)
      → alsa.get_left card ≢ ptr.vol_min
      → alsa.get_right card ≢ ptr.vol_min
      → mixer_ctrl_sync alsa card ptr ≡ record ptr {
        m_channel = channel_all;
        m_volume = half (wrap_long (alsa.get_left card +ℤ alsa.get_right card));
      }
  unfolding mixer_ctrl_sync
  sync-all card ptr l r = rw (mixer_ctrl_sync, ne→eqb_ℤ _ _ l, ne→eqb_ℤ _ _ r) refl

  pub sync-left :
      (card : C) (ptr : MixerCtrl)
      → alsa.get_left card ≢ ptr.vol_min
      → alsa.get_right card ≡ ptr.vol_min
      → mixer_ctrl_sync alsa card ptr
        ≡ record ptr { m_channel = channel_left; m_volume = alsa.get_left card }
  unfolding mixer_ctrl_sync
  sync-left card ptr l r = rw (mixer_ctrl_sync, ne→eqb_ℤ _ _ l, r, eqb_ℤ_refl ptr.vol_min) refl

  pub sync-right :
      (card : C) (ptr : MixerCtrl)
      → alsa.get_left card ≡ ptr.vol_min
      → mixer_ctrl_sync alsa card ptr
        ≡ record ptr { m_channel = channel_right; m_volume = alsa.get_right card }
  unfolding mixer_ctrl_sync
  sync-right card ptr l = rw (mixer_ctrl_sync, l, eqb_ℤ_refl ptr.vol_min) refl

  -- The three cases of the two volumes.
  sync-cases :
      (card : C) (ptr : MixerCtrl)
      → ((alsa.get_left card ≢ ptr.vol_min) × (alsa.get_right card ≢ ptr.vol_min))
        ⊎ (((alsa.get_left card ≢ ptr.vol_min) × (alsa.get_right card ≡ ptr.vol_min))
            ⊎ (alsa.get_left card ≡ ptr.vol_min))
  sync-cases card ptr = elim (Bool-cases (eqb_ℤ (alsa.get_left card) ptr.vol_min)) [
    | inl a ↦ inr (inr (eqb_ℤ→eq _ _ a))
    | inr a ↦ elim (Bool-cases (eqb_ℤ (alsa.get_right card) ptr.vol_min)) [
      | inl b ↦ inr (inl (eqb_ℤ→ne _ _ a, eqb_ℤ→eq _ _ b))
      | inr b ↦ inl (eqb_ℤ→ne _ _ a, eqb_ℤ→ne _ _ b)
    ]
  ]

  -- A second look at the same card finds the same.
  sync-sync :
      (card : C) (ptr : MixerCtrl)
      → mixer_ctrl_sync alsa card (mixer_ctrl_sync alsa card ptr) ≡ mixer_ctrl_sync alsa card ptr
  sync-sync card ptr = elim (sync-cases card ptr) [
    | inl (l, r) ↦ rw (sync-all card ptr l r) (sync-all card _ l r)
    | inr (inl (l, r)) ↦ rw (sync-left card ptr l r) (sync-left card _ l r)
    | inr (inr l) ↦ rw (sync-right card ptr l) (sync-right card _ l)
  ]

  sync-min : (card : C) (ptr : MixerCtrl) → (mixer_ctrl_sync alsa card ptr).vol_min ≡ ptr.vol_min
  sync-min card ptr = elim (sync-cases card ptr) [
    | inl (l, r) ↦ rw (sync-all card ptr l r) refl
    | inr (inl (l, r)) ↦ rw (sync-left card ptr l r) refl
    | inr (inr l) ↦ rw (sync-right card ptr l) refl
  ]

  -- Only the lowest volume of the handle counts.
  pub sync-of :
      (card : C) (p q : MixerCtrl)
      → p.vol_min ≡ q.vol_min
      → mixer_ctrl_sync alsa card p ≡ mixer_ctrl_sync alsa card q
  unfolding mixer_ctrl_sync
  sync-of card p q e =
      ap
        (λ m.
          mixer_ctrl_sync alsa card
            (record { vol_min = m; m_channel = channel_all; m_volume = pos 0 }))
        e

  pub set_result-true :
      (card d : C) (o : Option C)
      → (set_result alsa card o).0 ≡ true
      → (set_result alsa card o).1 ≡ d
      → o ≡ some d
  unfolding set_result
  set_result-true card d none h e = cc
  set_result-true card d (some c) h e = ap some e

  -- Behind a volume that was set on the channel found, the channel is found again, with the volume.
  set-sync :
      IsAlsa alsa
      → (card d : C) (ptr : MixerCtrl) (vol : ℤ) → vol ≢ ptr.vol_min
      → DoubleFits vol
      → (set_channel_vol alsa card (mixer_ctrl_sync alsa card ptr).m_channel vol).0 ≡ true
      → (set_channel_vol alsa card (mixer_ctrl_sync alsa card ptr).m_channel vol).1 ≡ d
      → mixer_ctrl_sync alsa d ptr ≡ record (mixer_ctrl_sync alsa card ptr) { m_volume = vol }
  unfolding set_channel_vol
  set-sync laws card d ptr vol ne fit h e = elim (sync-cases card ptr) [
    | inl (l, r) ↦
        let q = sync-all card ptr l r in
        let h' =
          subst (λ (x : MixerCtrl). (set_channel_vol alsa card x.m_channel vol).0 ≡ true) q h in
        let e' = subst (λ (x : MixerCtrl). (set_channel_vol alsa card x.m_channel vol).1 ≡ d) q e in
        let o : alsa.set_all card vol ≡ some d = set_result-true card d _ h' e' in
        let gl = laws.all_left card d vol o in
        let gr = laws.all_right card d vol o in
        rw q (
          sync-all d ptr (λ x. ne (sym gl ∙ x)) (λ x. ne (sym gr ∙ x))
          ∙ rw (gl, gr, half_double vol fit) refl)
    | inr (inl (l, r)) ↦
        let q = sync-left card ptr l r in
        let h' =
          subst (λ (x : MixerCtrl). (set_channel_vol alsa card x.m_channel vol).0 ≡ true) q h in
        let e' = subst (λ (x : MixerCtrl). (set_channel_vol alsa card x.m_channel vol).1 ≡ d) q e in
        let o : alsa.set_left card vol ≡ some d = set_result-true card d _ h' e' in
        let gl = laws.left_set card d vol o in
        rw q (sync-left d ptr (λ x. ne (sym gl ∙ x)) (laws.left_kept card d vol o ∙ r) ∙ rw gl refl)
    | inr (inr l) ↦
        let q = sync-right card ptr l in
        let h' =
          subst (λ (x : MixerCtrl). (set_channel_vol alsa card x.m_channel vol).0 ≡ true) q h in
        let e' = subst (λ (x : MixerCtrl). (set_channel_vol alsa card x.m_channel vol).1 ≡ d) q e in
        let o : alsa.set_right card vol ≡ some d = set_result-true card d _ h' e' in
        let gr = laws.right_set card d vol o in
        rw q (sync-right d ptr (laws.right_kept card d vol o ∙ l) ∙ rw gr refl)
  ]

-- A success that had to set the volume.
pub set_vol-true :
    {C : Type 0} (alsa : Alsa C) (card d : C) (ptr p : MixerCtrl) (vol : ℤ)
    → mixer_ctrl_set_vol alsa card ptr vol ≡ (true, d, p)
    → eqb_ℤ (mixer_ctrl_sync alsa card ptr).m_volume vol ≡ false
    → ((set_channel_vol alsa card (mixer_ctrl_sync alsa card ptr).m_channel vol).0 ≡ true)
      × ((set_channel_vol alsa card (mixer_ctrl_sync alsa card ptr).m_channel vol).1 ≡ d)
      × (p.vol_min ≡ ptr.vol_min)
unfolding mixer_ctrl_set_vol
set_vol-true {C} alsa card d ptr p vol h a =
    let s = mixer_ctrl_sync alsa card ptr in
    let put = set_channel_vol alsa card s.m_channel vol in
    let h' : (put.0, put.1, record s { m_volume = vol }) ≡ (true, d, p) = (rw a refl) ∙ h in
    let m : record s { m_volume = vol } ≡ p = ap (λ (x : Bool × C × MixerCtrl). x.2) h' in
    (
      ap (λ (x : Bool × C × MixerCtrl). x.0) h',
      ap (λ (x : Bool × C × MixerCtrl). x.1) h',
      ap (λ (x : MixerCtrl). x.vol_min) (sym m) ∙ sync-min alsa card ptr,
    )

-- On a mixer that keeps what ALSA documents, let `mixer_ctrl_setVol` succeed with another volume than the
-- lowest one, whose double fits a `long`. Then `mixer_ctrl_getVol` returns this volume, and `mixer_ctrl_getChannel` the channel
-- that it returned before.
pub get_vol-set_vol :
    {C : Type 0} (alsa : Alsa C) (card d : C) (ptr p : MixerCtrl) (vol : ℤ)
    → IsAlsa alsa
    → vol ≢ ptr.vol_min
    → DoubleFits vol
    → mixer_ctrl_set_vol alsa card ptr vol ≡ (true, d, p)
    → ((mixer_ctrl_get_vol alsa d p).0 ≡ vol)
      × ((mixer_ctrl_get_channel alsa d p).0 ≡ (mixer_ctrl_get_channel alsa card ptr).0)
unfolding mixer_ctrl_set_vol mixer_ctrl_get_vol mixer_ctrl_get_channel
get_vol-set_vol {C} alsa card d ptr p vol laws ne fit h =
    elim (Bool-cases (eqb_ℤ (mixer_ctrl_sync alsa card ptr).m_volume vol)) [
      | inl a ↦
          let s = mixer_ctrl_sync alsa card ptr in
          let h' : (true, card, s) ≡ (true, d, p) = (rw a refl) ∙ h in
          let c : card ≡ d = ap (λ (x : Bool × C × MixerCtrl). x.1) h' in
          let m : s ≡ p = ap (λ (x : Bool × C × MixerCtrl). x.2) h' in
          rw (← c, ← m) (rw (sync-sync alsa card ptr) (eqb_ℤ→eq _ _ a, refl))
      | inr a ↦
          let t = set_vol-true alsa card d ptr p vol h a in
          rw (sync-of alsa d p ptr t.2, set-sync alsa laws card d ptr vol ne fit t.0 t.1)
            (refl, refl)
    ]
