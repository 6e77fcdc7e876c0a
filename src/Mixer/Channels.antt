-- ===== src/Mixer/Channels.antt =====
-- The same file, which channel plays: switching channels, and the lowest volume.
use package_compile_sys.Common.{
  ◌≡◌, ◌≢◌, refl, ap, sym, subst, ◌∙◌, Option, none, some, Bool, true, false,
}
use package_compile_sys.Common.Int.{ℤ}
use package_compile_sys.Mixer.{
  Alsa, IsAlsa, Channel, channel_all, channel_left, channel_right, channel_unknown, MixerCtrl,
  mixer_ctrl_sync, mixer_ctrl_get_vol, mixer_ctrl_get_channel, set_result, set_channel_vol,
  mixer_ctrl_set_vol, switch_channel, mixer_ctrl_set_channel,
}
use package_compile_sys.Mixer.Volume.{
  DoubleFits, half_double, sync-all, sync-left, sync-right, set_result-true, set_vol-true, sync-of,
  ne→eqb_ℤ,
}

-- Two calls that both succeeded.
two_steps :
    {C : Type 0} (alsa : Alsa C) (card d : C) (first : Option C) (second : C → Option C)
    → (elim first as (λ _. Bool × C) [
      | none ↦ (false, card)
      | some c ↦ set_result alsa c (second c)
    ]).0
      ≡ true
    → (elim first as (λ _. Bool × C) [
      | none ↦ (false, card)
      | some c ↦ set_result alsa c (second c)
    ]).1
      ≡ d
    → (c : C) × (first ≡ some c) × (second c ≡ some d)
two_steps alsa card d none second h e = cc
two_steps alsa card d (some c) second h e = (c, refl, set_result-true alsa c d (second c) h e)

-- What is found on the card behind a switch that succeeded.
switch-sync :
    {C : Type 0} (alsa : Alsa C) (card d : C) (ptr : MixerCtrl) (channel : Channel)
    → IsAlsa alsa
    → ptr.m_volume ≢ ptr.vol_min
    → DoubleFits ptr.m_volume
    → (switch_channel alsa card ptr channel).0 ≡ true
    → (switch_channel alsa card ptr channel).1 ≡ d
    → mixer_ctrl_sync alsa d ptr ≡ record ptr { m_channel = channel }
unfolding switch_channel
switch-sync alsa card d ptr channel_all laws ne fit h e =
    let o = set_result-true alsa card d (alsa.set_all card ptr.m_volume) h e in
    let gl = laws.all_left card d _ o in
    let gr = laws.all_right card d _ o in
    sync-all alsa d ptr (λ x. ne (sym gl ∙ x)) (λ x. ne (sym gr ∙ x))
    ∙ rw (gl, gr, half_double ptr.m_volume fit) refl
switch-sync alsa card d ptr channel_left laws ne fit h e =
    let (c, q, o) =
      two_steps alsa card d (alsa.set_right card ptr.vol_min) (λ x. alsa.set_left x ptr.m_volume) h
        e in
    let gl = laws.left_set c d _ o in
    sync-left alsa d ptr (λ x. ne (sym gl ∙ x)) (laws.left_kept c d _ o ∙ laws.right_set card c _ q)
    ∙ rw gl refl
switch-sync alsa card d ptr channel_right laws ne fit h e =
    let (c, q, o) =
      two_steps alsa card d (alsa.set_left card ptr.vol_min) (λ x. alsa.set_right x ptr.m_volume) h
        e in
    sync-right alsa d ptr (laws.right_kept c d _ o ∙ laws.left_set card c _ q)
    ∙ rw (laws.right_set c d _ o) refl
switch-sync alsa card d ptr (channel_unknown n) laws ne fit h e = cc

-- On a mixer that keeps what ALSA documents, `mixer_ctrl_setChannel` of one of the three channels
-- that succeeds, on a handle whose volume is not the lowest one and fits a `long` twice, is what `mixer_ctrl_getChannel` then
-- returns, and `mixer_ctrl_getVol` returns the volume of the handle.
pub get_channel-set_channel :
    {C : Type 0} (alsa : Alsa C) (card d : C) (ptr p : MixerCtrl) (channel : Channel)
    → IsAlsa alsa
    → ptr.m_volume ≢ ptr.vol_min
    → DoubleFits ptr.m_volume
    → mixer_ctrl_set_channel alsa card ptr channel ≡ (true, d, p)
    → ((mixer_ctrl_get_channel alsa d p).0 ≡ channel)
      × ((mixer_ctrl_get_vol alsa d p).0 ≡ ptr.m_volume)
unfolding mixer_ctrl_set_channel mixer_ctrl_get_vol mixer_ctrl_get_channel
get_channel-set_channel {C} alsa card d ptr p channel laws ne fit h =
    let m = ap (λ (x : Bool × C × MixerCtrl). x.2) h in
    let t =
      switch-sync alsa card d ptr channel laws ne fit (ap (λ (x : Bool × C × MixerCtrl). x.0) h)
        (ap (λ (x : Bool × C × MixerCtrl). x.1) h) in
    rw (sync-of alsa d p ptr (ap (λ (x : MixerCtrl). x.vol_min) (sym m)), t) (refl, refl)

-- The lowest volume: once it is set on the left channel alone, both volumes are the lowest one, the
-- right channel is taken for the one that plays, and the next volume is set on the right.
pub lowest_volume_switches :
    {C : Type 0} (alsa : Alsa C) (card d e : C) (ptr p q : MixerCtrl) (vol : ℤ)
    → IsAlsa alsa
    → alsa.get_left card ≢ ptr.vol_min
    → alsa.get_right card ≡ ptr.vol_min
    → mixer_ctrl_set_vol alsa card ptr ptr.vol_min ≡ (true, d, p)
    → vol ≢ ptr.vol_min
    → mixer_ctrl_set_vol alsa d p vol ≡ (true, e, q)
    → ((mixer_ctrl_get_channel alsa card ptr).0 ≡ channel_left)
      × ((mixer_ctrl_get_channel alsa d p).0 ≡ channel_right)
      × (alsa.get_left e ≡ ptr.vol_min)
      × (alsa.get_right e ≡ vol)
unfolding mixer_ctrl_set_vol mixer_ctrl_get_channel set_channel_vol
lowest_volume_switches {C} alsa card d e ptr p q vol laws l r h ne k =
    let found = sync-left alsa card ptr l r in
    let t = set_vol-true alsa card d ptr p ptr.vol_min h (rw found (ne→eqb_ℤ _ _ l)) in
    let o : alsa.set_left card ptr.vol_min ≡ some d =
      set_result-true alsa card d _
        (subst (λ (x : MixerCtrl). (set_channel_vol alsa card x.m_channel ptr.vol_min).0 ≡ true)
          found t.0)
        (subst (λ (x : MixerCtrl). (set_channel_vol alsa card x.m_channel ptr.vol_min).1 ≡ d) found
          t.1) in
    let low = laws.left_set card d _ o in
    let low' = laws.left_kept card d _ o ∙ r in
    let there = sync-of alsa d p ptr t.2 ∙ sync-right alsa d ptr low in
    let u = set_vol-true alsa d e p q vol k (rw (there, low') (ne→eqb_ℤ _ _ (λ x. ne (sym x)))) in
    let o' : alsa.set_right d vol ≡ some e =
      set_result-true alsa d e _
        (subst (λ (x : MixerCtrl). (set_channel_vol alsa d x.m_channel vol).0 ≡ true) there u.0)
        (subst (λ (x : MixerCtrl). (set_channel_vol alsa d x.m_channel vol).1 ≡ e) there u.1) in
    (rw found refl, rw there refl, laws.right_kept d e _ o' ∙ low, laws.right_set d e _ o')
