-- ===== src/Dll/Chain.antt =====
-- Chains of nodes on the heap: `Chain c prev xs after` says that the cells `xs`, in order, stand in
-- the heap `c`, that the first one points back to `prev` and the last one on to `after`.
use package_compile_sys.Common.{
  ℕ, ◌≡◌, ◌≢◌, refl, sym, ap, ◌∙◌, List, [], ◌∷◌, ◌++◌, Option, none, some,
}
use package_compile_sys.Dll.Heap.{Ptr, null, Node, node, update, update_self, update_ne}

-- A cell is an address and a payload.
abbrev pub Cells : Type 0
Cells = List (Ptr × ℕ)

abbrev pub first_or : Ptr → Cells → Ptr
first_or after [] = after
first_or after ((a, d) ∷ xs) = a

abbrev pub last_or : Ptr → Cells → Ptr
last_or prev [] = prev
last_or prev ((a, d) ∷ xs) = last_or a xs

abbrev pub payloads : Cells → List ℕ
payloads [] = []
payloads ((a, d) ∷ xs) = d ∷ payloads xs

abbrev pub Absent : Ptr → Cells → Type 0
Absent p [] = Unit {0}
Absent p ((a, d) ∷ xs) = (p ≢ a) × Absent p xs

abbrev pub Chain : (Ptr → Option Node) → Ptr → Cells → Ptr → Type 0
Chain c prev [] after = Unit {0}
Chain c prev ((a, d) ∷ xs) after =
    (a ≢ null) × (c a ≡ some (node prev (first_or after xs) d)) × Absent a xs × Chain c a xs after

-- A write elsewhere leaves a chain alone.
pub Chain-frame :
    (c : Ptr → Option Node) (p : Ptr) (n : Option Node) (prev : Ptr) (xs : Cells) (after : Ptr)
    → Absent p xs
    → Chain c prev xs after
    → Chain (update c p n) prev xs after
Chain-frame c p n prev [] after f h = tt
Chain-frame c p n prev ((a, d) ∷ xs) after f h =
    (h.0, update_ne c p a n f.0 ∙ h.1, h.2, Chain-frame c p n a xs after f.1 h.3)

-- What no cell stands at, no chain has.
pub Absent-fresh :
    (c : Ptr → Option Node) (p prev : Ptr) (xs : Cells) (after : Ptr)
    → c p ≡ none
    → Chain c prev xs after
    → Absent p xs
Absent-fresh c p prev [] after e h = tt
Absent-fresh c p prev ((a, d) ∷ xs) after e h =
    ((λ q. cc (ap c q)), Absent-fresh c p a xs after e h.3)

pub Absent-last : (p b e : ℕ) (xs : Cells) → Absent p ((b, e) ∷ xs) → p ≢ last_or b xs
Absent-last p b e [] f = f.0
Absent-last p b e ((a, d) ∷ xs) f = Absent-last p a d xs f.1

pub Absent-append : (p : ℕ) (xs ys : Cells) → Absent p xs → Absent p ys → Absent p (xs ++ ys)
Absent-append p [] ys f g = g
Absent-append p ((a, d) ∷ xs) ys f g = (f.0, Absent-append p xs ys f.1 g)

pub Absent-left : (p : ℕ) (xs ys : Cells) → Absent p (xs ++ ys) → Absent p xs
Absent-left p [] ys f = tt
Absent-left p ((a, d) ∷ xs) ys f = (f.0, Absent-left p xs ys f.1)

pub Absent-right : (p : ℕ) (xs ys : Cells) → Absent p (xs ++ ys) → Absent p ys
Absent-right p [] ys f = f
Absent-right p ((a, d) ∷ xs) ys f = Absent-right p xs ys f.1

-- No cell of the first list stands at an address of the second.
abbrev pub Apart : Cells → Cells → Type 0
Apart [] ys = Unit {0}
Apart ((a, d) ∷ xs) ys = Absent a ys × Apart xs ys

pub first_or-append :
    (after : Ptr) (xs ys : Cells) → first_or after (xs ++ ys) ≡ first_or (first_or after ys) xs
first_or-append after [] ys = refl
first_or-append after ((a, d) ∷ xs) ys = refl

-- A chain falls into two, and two that are apart join.
pub Chain-split :
    (c : Ptr → Option Node) (prev : Ptr) (xs ys : Cells) (after : Ptr)
    → Chain c prev (xs ++ ys) after
    → Chain c prev xs (first_or after ys) × Chain c (last_or prev xs) ys after × Apart xs ys
Chain-split c prev [] ys after h = (tt, h, tt)
Chain-split c prev ((a, d) ∷ xs) ys after h =
    let (left, right, apart) = Chain-split c a xs ys after h.3 in
    (
      (
        h.0,
        h.1 ∙ ap (λ q. some (node prev q d)) (first_or-append after xs ys),
        Absent-left a xs ys h.2,
        left,
      ),
      right,
      (Absent-right a xs ys h.2, apart),
    )

pub Chain-join :
    (c : Ptr → Option Node) (prev : Ptr) (xs ys : Cells) (after : Ptr)
    → Chain c prev xs (first_or after ys)
    → Chain c (last_or prev xs) ys after
    → Apart xs ys
    → Chain c prev (xs ++ ys) after
Chain-join c prev [] ys after h k f = k
Chain-join c prev ((a, d) ∷ xs) ys after h k f = (
  h.0,
  h.1 ∙ ap (λ q. some (node prev q d)) (sym (first_or-append after xs ys)),
  Absent-append a xs ys h.2 f.0,
  Chain-join c a xs ys after h.3 k f.1,
)

-- The last node of a chain is there, and its `next` may be set to `r`.
pub relink_last :
    (c : Ptr → Option Node) (prev b e : ℕ) (xs : Cells) (after r : Ptr)
    → Chain c prev ((b, e) ∷ xs) after
    → (n : Node) × (c (last_or b xs) ≡ some n)
      × (n.next ≡ after)
      × Chain (update c (last_or b xs) (some (record n { next = r }))) prev ((b, e) ∷ xs) r
relink_last c prev b e [] after r h =
    (node prev after e, h.1, refl, (h.0, update_self c b _, tt, tt))
relink_last c prev b e ((a, d) ∷ xs) after r h =
    let (n, at, points, rest) = relink_last c b a d xs after r h.3 in
    let l = last_or a xs in
    let kept : update c l (some (record n { next = r })) b ≡ c b =
      update_ne c l b _ (λ q. Absent-last b a d xs h.2 (sym q)) in
    (n, at, points, (h.0, kept ∙ h.1, h.2, rest))

-- The first node of a chain is there, and its `prev` may be set to `r`.
pub relink_first :
    (c : Ptr → Option Node) (prev a d : ℕ) (xs : Cells) (after r : Ptr)
    → Chain c prev ((a, d) ∷ xs) after
    → Chain (update c a (some (node r (first_or after xs) d))) r ((a, d) ∷ xs) after
relink_first c prev a d xs after r h =
    (h.0, update_self c a _, h.2, Chain-frame c a _ a xs after h.2 h.3)

pub last_or-append : (prev a d : ℕ) (xs : Cells) → last_or prev (xs ++ (a, d) ∷ []) ≡ a
last_or-append prev a d [] = refl
last_or-append prev a d ((b, e) ∷ xs) = last_or-append b a d xs

pub Apart-single : (p d : ℕ) (xs : Cells) → Absent p xs → Apart xs ((p, d) ∷ [])
Apart-single p d [] f = tt
Apart-single p d ((a, e) ∷ xs) f = (((λ q. f.0 (sym q)), tt), Apart-single p d xs f.1)

pub Absent-of-Apart : (p d : ℕ) (xs : Cells) → Apart xs ((p, d) ∷ []) → Absent p xs
Absent-of-Apart p d [] f = tt
Absent-of-Apart p d ((a, e) ∷ xs) f = ((λ q. f.0.0 (sym q)), Absent-of-Apart p d xs f.1)

pub last_or-append_cons :
    (prev a d : ℕ) (xs ys : Cells) → last_or prev (xs ++ (a, d) ∷ ys) ≡ last_or a ys
last_or-append_cons prev a d [] ys = refl
last_or-append_cons prev a d ((b, e) ∷ xs) ys = last_or-append_cons b a d xs ys

pub last_or-ne-null :
    (c : Ptr → Option Node) (prev b e : ℕ) (xs : Cells) (after : Ptr)
    → Chain c prev ((b, e) ∷ xs) after
    → last_or b xs ≢ null
last_or-ne-null c prev b e [] after h = h.0
last_or-ne-null c prev b e ((a, d) ∷ xs) after h = last_or-ne-null c b a d xs after h.3

pub Absent-last-Apart :
    (b e : ℕ) (xs ys : Cells) → Apart ((b, e) ∷ xs) ys → Absent (last_or b xs) ys
Absent-last-Apart b e [] ys f = f.0
Absent-last-Apart b e ((a, d) ∷ xs) ys f = Absent-last-Apart a d xs ys f.1

pub Absent-head-Apart : (p d : ℕ) (xs ys : Cells) → Apart xs ((p, d) ∷ ys) → Absent p xs
Absent-head-Apart p d [] ys f = tt
Absent-head-Apart p d ((a, e) ∷ xs) ys f = ((λ q. f.0.0 (sym q)), Absent-head-Apart p d xs ys f.1)

pub Apart-tail : (p d : ℕ) (xs ys : Cells) → Apart xs ((p, d) ∷ ys) → Apart xs ys
Apart-tail p d [] ys f = tt
Apart-tail p d ((a, e) ∷ xs) ys f = (f.0.1, Apart-tail p d xs ys f.1)
