-- ===== src/Gsensor/Registry.antt =====
-- The same file, the table of functions: what is in it, that every operation keeps it in order, and
-- what registering and unregistering do to it.
use package_compile_sys.Common.{
  ℕ, zero, suc, ◌+◌, ◌≤◌, ◌<◌, ◌≡◌, ◌⊎◌, inl, inr, refl, ap, subst, List, [], ◌∷◌, none, some, Bool,
  true, false, arith, length, get_or, set, take, if◌then◌else◌,
}
use package_compile_sys.Gsensor.{
  SendData, Sensor, free_data, gsensor_fun_num, first_free, same_function, scan,
}

-- The slot `i` is free, or holds its number and a function.
abbrev pub IsSlot : ℕ → SendData → Type 0
IsSlot i d = (d ≡ free_data) ⊎ ((f : ℕ) × (d ≡ record { num = suc i; send = some f }))

abbrev pub IsTable : ℕ → List SendData → Type 0
IsTable i [] = Unit
IsTable i (d ∷ ds) = IsSlot i d × IsTable (i + 1) ds

-- The functions of the table, in the order of their slots.
unfoldable pub registered : List SendData → List ℕ
registered [] = []
registered (d ∷ ds) = elim d.send [ none ↦ registered ds | some f ↦ f ∷ registered ds ]

pub record IsRegistry (s : Sensor) : Type 0 where
  pub size : length s.senddata ≡ gsensor_fun_num
  pub table : IsTable 0 s.senddata
  pub count : s.gsfun_count ≡ length (registered s.senddata)

pub length-registered : (ds : List SendData) → length (registered ds) ≤ length ds
unfolding registered
length-registered [] = omega arith
length-registered (d ∷ ds) =
    elim d.send
      as (λ o.
        length (elim o as (λ _. List ℕ) [ none ↦ registered ds | some f ↦ f ∷ registered ds ])
        ≤ suc (length ds)) [
          | none ↦ omega (arith, length-registered ds)
          | some f ↦ omega (arith, length-registered ds)
        ]

pub first_free-bounds :
    (ds : List SendData) (i : ℕ) → (i ≤ first_free ds i) × (first_free ds i ≤ i + length ds)
unfolding first_free
first_free-bounds [] i = omega arith
first_free-bounds (d ∷ ds) i = ground (arith, first_free-bounds ds (i + 1))

-- The lowest free slot, which is `k` slots behind the first.
pub record FreeAt (ds : List SendData) (i k : ℕ) : Type 0 where
  pub found : first_free ds i ≡ i + k
  pub inside : k < length ds
  pub free : get_or ds k free_data ≡ free_data

pub first_free-cases :
    (ds : List SendData) (i : ℕ)
    → IsTable i ds
    → (first_free ds i ≡ i + length ds) ⊎ ((k : ℕ) × FreeAt ds i k)
unfolding first_free
first_free-cases [] i t = inl (omega arith)
first_free-cases (d ∷ ds) i (inl e, t) =
    inr (0, record { found = rw e (omega arith); inside = omega arith; free = e })
first_free-cases (d ∷ ds) i (inr (f, e), t) = elim (first_free-cases ds (i + 1) t) [
  | inl all ↦ inl (rw e (ground (arith, all)))
  | inr (k, at) ↦ inr (
    suc k,
    record {
      found = rw e (ground (arith, at.found));
      inside = omega (arith, at.inside);
      free = at.free;
    },
  )
]

-- A function stands in one of the slots.
unfoldable pub holds : ℕ → List SendData → Bool
holds f [] = false
holds f (d ∷ ds) = elim (same_function d.send (some f)) [ true ↦ true | false ↦ holds f ds ]

-- The loop of registration meets the functions before the first free slot, and no others.
pub scan-free :
    (f : ℕ) (ds : List SendData) (i k : ℕ)
    → IsTable i ds
    → first_free ds i ≡ i + k
    → scan (some f) ds i ≡ (if holds f (take k ds) then none else some (i + k))
unfolding scan holds first_free same_function
scan-free f [] i zero t e = ap some (omega arith)
scan-free f [] i (suc k) t e = absurd (omega arith)
scan-free f (d ∷ ds) i zero (inl e, t) h = rw e (ap some (omega arith))
scan-free f (d ∷ ds) i (suc k) (inl e, t) h = absurd (ground arith)
scan-free f (d ∷ ds) i zero (inr (g, e), t) h =
    absurd (ground (arith, first_free-bounds ds (i + 1)))
scan-free f (d ∷ ds) i (suc k) (inr (g, e), t) h =
    rw e (ground (arith, scan-free f ds (i + 1) k t (ground arith)))

-- NULL is taken for the function of a free slot.
pub scan-null :
    (ds : List SendData) (i : ℕ)
    → IsTable i ds
    → first_free ds i < i + length ds
    → scan none ds i ≡ none
unfolding scan first_free same_function
scan-null [] i t h = absurd (omega arith)
scan-null (d ∷ ds) i (inl e, t) h = rw e refl
scan-null (d ∷ ds) i (inr (f, e), t) h = rw e (ground (arith, scan-null ds (i + 1) t))

pub length-registered-set :
    (ds : List SendData) (i k f : ℕ)
    → get_or ds k free_data ≡ free_data
    → k < length ds
    → length (registered (set ds k (record { num = i; send = some f })))
      ≡ suc (length (registered ds))
unfolding registered
length-registered-set [] i k f e h = absurd (omega arith)
length-registered-set (d ∷ ds) i zero f e h = rw e refl
length-registered-set (d ∷ ds) i (suc k) f e h =
    elim d.send
      as (λ o.
        length (elim o as (λ _. List ℕ) [
          | none ↦ registered (set ds k (record { num = i; send = some f }))
          | some g ↦ g ∷ registered (set ds k (record { num = i; send = some f }))
        ])
        ≡ suc (
            length
              (elim o as (λ _. List ℕ) [ none ↦ registered ds | some g ↦ g ∷ registered ds ]))) [
                | none ↦ length-registered-set ds i k f e (omega arith)
                | some g ↦ ap suc (length-registered-set ds i k f e (omega arith))
              ]

pub length-registered-unset :
    (ds : List SendData) (i k f : ℕ)
    → get_or ds k free_data ≡ record { num = i; send = some f }
    → k < length ds
    → suc (length (registered (set ds k free_data))) ≡ length (registered ds)
unfolding registered
length-registered-unset [] i k f e h = absurd (omega arith)
length-registered-unset (d ∷ ds) i zero f e h = rw e refl
length-registered-unset (d ∷ ds) i (suc k) f e h =
    elim d.send
      as (λ o.
        suc (
          length (elim o as (λ _. List ℕ) [
            | none ↦ registered (set ds k free_data)
            | some g ↦ g ∷ registered (set ds k free_data)
          ]))
        ≡ length (elim o as (λ _. List ℕ) [ none ↦ registered ds | some g ↦ g ∷ registered ds ])) [
          | none ↦ length-registered-unset ds i k f e (omega arith)
          | some g ↦ ap suc (length-registered-unset ds i k f e (omega arith))
        ]

pub IsTable-set :
    (ds : List SendData) (i k : ℕ) (d : SendData)
    → IsTable i ds
    → IsSlot (i + k) d
    → IsTable i (set ds k d)
IsTable-set [] i k d t h = t
IsTable-set (d' ∷ ds) i zero d t h = (subst (λ n. IsSlot n d) (omega arith) h, t.1)
IsTable-set (d' ∷ ds) i (suc k) d t h =
    (t.0, IsTable-set ds (i + 1) k d t.1 (subst (λ n. IsSlot n d) (omega arith) h))

pub IsTable-get :
    (ds : List SendData) (i k : ℕ)
    → IsTable i ds
    → k < length ds
    → IsSlot (i + k) (get_or ds k free_data)
IsTable-get [] i k t h = absurd (omega arith)
IsTable-get (d ∷ ds) i zero t h = subst (λ n. IsSlot n d) (omega arith) t.0
IsTable-get (d ∷ ds) i (suc k) t h =
    subst (λ n. IsSlot n (get_or ds k free_data)) (omega arith)
      (IsTable-get ds (i + 1) k t.1 (omega arith))

pub zero_add : (k : ℕ) → 0 + k ≡ k
zero_add k = omega arith

-- A state with the same table and count.
pub same_table :
    {s t : Sensor}
    → t.senddata ≡ s.senddata
    → t.gsfun_count ≡ s.gsfun_count
    → IsRegistry s
    → IsRegistry t
same_table e c r = record { size = rw e r.size; table = rw e r.table; count = rw (e, c) r.count }
