-- ===== src/MemPool/Held.antt =====
-- The same file, the blocks that are out: a step relation of the pool and of what its clients hold.
use package_compile_sys.Common.{
  ℕ, suc, ◌+◌, ◌-◌, ◌<◌, ◌≤◌, ◌≡◌, refl, sym, subst, ap, ◌∙◌, List, [], ◌∷◌, ◌++◌, Option, none,
  some, true, false, not, ◌&&◌, ◌==◌, if◌then◌else◌, arith, Bool-cases, inl, inr, ==→eq, ==_refl,
}
use package_compile_sys.MemPool.{MemUnit, Units, add, get, put, clear}

-- How many of the blocks that are held are this one.
abbrev pub count : ℕ → List ℕ → ℕ
count a [] = 0
count a (b ∷ held) = let n = count a held in if b == a then suc n else n

abbrev pub give_back : ℕ → List ℕ → List ℕ
give_back a [] = []
give_back a (b ∷ held) = let rest = give_back a held in if b == a then held else b ∷ rest

-- How many units have the block, and how many of these are out.
abbrev pub owners : ℕ → Units → ℕ
owners a [] = 0
owners a (mu ∷ m_vct) = let n = owners a m_vct in if mu.block == a then suc n else n

abbrev pub out : ℕ → Units → ℕ
out a [] = 0
out a (mu ∷ m_vct) = let n = out a m_vct in if mu.block == a && not mu.is_act then suc n else n

-- From a pool and the blocks that its clients hold to the ones after a call. A unit that is added is
-- active and has a block of its own; a client gives back what it holds; behind `clear` nobody uses a
-- block any more.
pub data Step : Units → List ℕ → Units → List ℕ → Type 0 where
  adds :
      (u : Units) (h : List ℕ) (mu : MemUnit)
      → owners mu.block u ≡ 0
      → mu.is_act ≡ true
      → Step u h (add mu u).1 h
  takes : (u v : Units) (h : List ℕ) (a n : ℕ) → get u ≡ (some (a, n), v) → Step u h v (a ∷ h)
  exhausted : (u v : Units) (h : List ℕ) → get u ≡ (none, v) → Step u h v h
  returns : (u : Units) (h : List ℕ) (a : ℕ) → 0 < count a h → Step u h (put a u).1 (give_back a h)
  clears : (u : Units) (h : List ℕ) → Step u h (clear u) []

pub data Reach : Units → List ℕ → Type 0 where
  started : Reach [] []
  step : (u v : Units) (h k : List ℕ) → Reach u h → Step u h v k → Reach v k

-- Each block has one unit, and is out as often as it is held.
pub record IsHeld (u : Units) (h : List ℕ) : Type 0 where
  pub one_owner : (a : ℕ) → owners a u ≤ 1
  pub held_out : (a : ℕ) → count a h ≡ out a u

out-owners : (a : ℕ) (u : Units) → out a u ≤ owners a u
out-owners a [] = omega arith
out-owners a (mu ∷ u) = ground (arith, out-owners a u)

owners-add :
    (a : ℕ) (mu : MemUnit) (u : Units) → owners a (u ++ mu ∷ []) ≡ owners a u + owners a (mu ∷ [])
owners-add a mu [] = ground arith
owners-add a mu (m ∷ u) = ground (arith, owners-add a mu u)

out-add : (a : ℕ) (mu : MemUnit) (u : Units) → out a (u ++ mu ∷ []) ≡ out a u + out a (mu ∷ [])
out-add a mu [] = ground arith
out-add a mu (m ∷ u) = ground (arith, out-add a mu u)

owners-get : (a : ℕ) (u : Units) → owners a (get u).1 ≡ owners a u
unfolding get
owners-get a [] = refl
owners-get a (mu ∷ u) = ground (arith, owners-get a u)

-- What `get` returns, counted.
found : ℕ → Option (ℕ × ℕ) → ℕ
found a none = 0
found a (some (b, n)) = if b == a then 1 else 0

out-get : (a : ℕ) (u : Units) → out a (get u).1 ≡ out a u + found a (get u).0
unfolding get found
out-get a [] = omega arith
out-get a (mu ∷ u) = ground (arith, out-get a u)

owners-put : (a b : ℕ) (u : Units) → owners a (put b u).1 ≡ owners a u
unfolding put
owners-put a b [] = refl
owners-put a b (mu ∷ u) = ground (arith, owners-put a b u)

out-put_self : (a : ℕ) (u : Units) → owners a u ≤ 1 → out a (put a u).1 ≡ 0
unfolding put
out-put_self a [] h = refl
out-put_self a (mu ∷ u) h = ground (arith, out-put_self a u, out-owners a u)

out-put_other : (a b : ℕ) (u : Units) → (b == a) ≡ false → out a (put b u).1 ≡ out a u
unfolding put
out-put_other a b [] e = refl
out-put_other a b (mu ∷ u) e = ground (arith, out-put_other a b u e)

owners-clear : (a : ℕ) (u : Units) → owners a (clear u) ≡ owners a u
unfolding clear
owners-clear a [] = refl
owners-clear a (mu ∷ u) = ground (arith, owners-clear a u)

out-clear : (a : ℕ) (u : Units) → out a (clear u) ≡ 0
unfolding clear
out-clear a [] = refl
out-clear a (mu ∷ u) = ground (arith, out-clear a u)

count-give_back : (a : ℕ) (h : List ℕ) → 0 < count a h → count a (give_back a h) ≡ count a h - 1
count-give_back a [] p = absurd (omega arith)
count-give_back a (b ∷ h) p = ground (arith, p, count-give_back a h)

count-give_back_other :
    (a b : ℕ) (h : List ℕ) → (b == a) ≡ false → count a (give_back b h) ≡ count a h
count-give_back_other a b [] e = refl
count-give_back_other a b (c ∷ h) e = ground (arith, e, count-give_back_other a b h e)

Step-IsHeld : (u v : Units) (h k : List ℕ) → Step u h v k → IsHeld u h → IsHeld v k
unfolding add found
Step-IsHeld _ _ _ _ (adds u h mu fresh act) i = record {
  one_owner = λ a. elim (Bool-cases (mu.block == a)) [
    | inl e ↦ ground (arith, e, owners-add a mu u, ap (λ b. owners b u) (sym (==→eq _ _ e)), fresh)
    | inr e ↦ ground (arith, e, owners-add a mu u, i.one_owner a)
  ];
  held_out = λ a. ground (arith, act, out-add a mu u, i.held_out a);
}
Step-IsHeld _ _ _ _ (takes u v h b n e) i =
    let w = ap (λ (x : Option (ℕ × ℕ) × Units). x.1) e in
    let f = ap (λ (x : Option (ℕ × ℕ) × Units). x.0) e in
    record {
      one_owner = λ a. rw (sym w, owners-get a u) (i.one_owner a);
      held_out = λ a. rw (sym w, out-get a u, f) (ground (arith, i.held_out a));
    }
Step-IsHeld _ _ _ _ (exhausted u v h e) i =
    let w = ap (λ (x : Option (ℕ × ℕ) × Units). x.1) e in
    let f = ap (λ (x : Option (ℕ × ℕ) × Units). x.0) e in
    record {
      one_owner = λ a. rw (sym w, owners-get a u) (i.one_owner a);
      held_out = λ a. rw (sym w, out-get a u, f) (ground (arith, i.held_out a));
    }
Step-IsHeld _ _ _ _ (returns u h b held) i = record {
  one_owner = λ a. rw (owners-put a b u) (i.one_owner a);
  held_out = λ a. elim (Bool-cases (b == a)) [
    | inl e ↦
        subst (λ x. count x (give_back b h) ≡ out x (put b u).1) (==→eq b a e)
          (omega (
            arith,
            held,
            count-give_back b h held,
            i.held_out b,
            out-owners b u,
            i.one_owner b,
            out-put_self b u (i.one_owner b),
          ))
    | inr e ↦ rw (out-put_other a b u e, count-give_back_other a b h e) (i.held_out a)
  ];
}
Step-IsHeld _ _ _ _ (clears u h) i = record {
  one_owner = λ a. rw (owners-clear a u) (i.one_owner a);
  held_out = λ a. sym (out-clear a u);
}

pub Reach-IsHeld : (u : Units) (h : List ℕ) → Reach u h → IsHeld u h
Reach-IsHeld _ _ started = record { one_owner = λ a. omega arith; held_out = λ a. refl }
Reach-IsHeld _ _ (step u v h k r s) = Step-IsHeld u v h k s (Reach-IsHeld u h r)

-- Let units with blocks of their own be added to an empty pool, blocks be taken by `get`, given back by
-- `put` by who holds them, and all of them by `clear`, in any order. A block that `get` then returns is
-- held by nobody.
pub get-exclusive :
    (u v : Units) (h : List ℕ) (a n : ℕ) → Reach u h → get u ≡ (some (a, n), v) → count a h ≡ 0
unfolding found
get-exclusive u v h a n r e =
    let i = Reach-IsHeld u h r in
    let w = ap (λ (x : Option (ℕ × ℕ) × Units). x.1) e in
    let f = ap (λ (x : Option (ℕ × ℕ) × Units). x.0) e in
    let o : out a v ≡ out a u + 1 =
      ap (out a) (sym w) ∙ out-get a u ∙ ap (λ x. out a u + found a x) f ∙ rw (==_refl a) refl in
    omega (
      arith,
      o,
      i.held_out a,
      out-owners a v,
      ap (λ u. owners a u) (sym w),
      owners-get a u,
      i.one_owner a,
    )
