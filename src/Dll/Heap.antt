-- ===== src/Dll/Heap.antt =====
-- The heap of `dll_node_t` nodes, and the commands that read and write it.
use package_compile_sys.Common.{
  ℕ, List, ◌∷◌, Option, none, some, ◌==◌, if◌then◌else◌, ◌≡◌, arith, ◌≢◌,
}

abbrev pub Ptr : Type 0
Ptr = ℕ

abbrev pub null : Ptr
null = 0

-- `dll_node_t`.
pub record Node : Type 0 where
  pub prev : Ptr
  pub next : Ptr
  pub payload : ℕ

-- The nodes by their addresses, and the payloads given to `dat_destroy`, latest first.
pub record Store : Type 0 where
  pub cell : Ptr → Option Node
  pub dropped : List ℕ

-- No result: a read or write through a pointer to no node, or a loop out of fuel.
abbrev pub Cmd : Type 0 → Type 0
Cmd A = Store → Option (A × Store)

abbrev pub pure : {A : Type 0} → A → Cmd A
pure a s = some (a, s)

abbrev pub fault : {A : Type 0} → Cmd A
fault s = none

infixl 5 ◌>>=◌ ◌>>◌
abbrev pub ◌>>=◌ : {A B : Type 0} → Cmd A → (A → Cmd B) → Cmd B
◌>>=◌ m k s = elim (m s) [ none ↦ none | some (a, t) ↦ k a t ]

abbrev pub ◌>>◌ : {B : Type 0} → Cmd (Unit {0}) → Cmd B → Cmd B
m >> k = m >>= λ _. k

unfoldable pub update : (Ptr → Option Node) → Ptr → Option Node → Ptr → Option Node
update c p n q = if p == q then n else c q

abbrev pub node : Ptr → Ptr → ℕ → Node
node p n d = record { prev = p; next = n; payload = d }

abbrev pub put : Ptr → Option Node → Cmd (Unit {0})
put p n s = some (tt, record s { cell = update s.cell p n })

-- `calloc` zeroes the links; the payload is stored at once.
abbrev pub alloc : Ptr → ℕ → Cmd (Unit {0})
alloc p d = put p (some (node null null d))

abbrev pub load : Ptr → Cmd Node
load p s = elim (s.cell p) [ none ↦ none | some n ↦ some (n, s) ]

abbrev pub set_prev : Ptr → Ptr → Cmd (Unit {0})
set_prev p q = load p >>= λ n. put p (some (record n { prev = q }))

abbrev pub set_next : Ptr → Ptr → Cmd (Unit {0})
set_next p q = load p >>= λ n. put p (some (record n { next = q }))

abbrev pub free_node : Ptr → Cmd (Unit {0})
free_node p = load p >>= λ n. put p none

abbrev pub destroyed : ℕ → Cmd (Unit {0})
destroyed d s = some (tt, record s { dropped = d ∷ s.dropped })

pub update_self : (c : Ptr → Option Node) (p : Ptr) (n : Option Node) → update c p n p ≡ n
unfolding update
update_self c p n = ground arith

pub update_ne : (c : Ptr → Option Node) (p q : Ptr) (n : Option Node) → p ≢ q → update c p n q ≡ c q
unfolding update
update_ne c p q n h = ground arith

-- A step that succeeds hands over its result and the heap.
pub bind_ok :
    {A B : Type 0} (m : Cmd A) (k : A → Cmd B) (s : Store) (a : A) (t : Store)
    → m s ≡ some (a, t)
    → (m >>= k) s ≡ k a t
bind_ok m k s a t e = rw (e, ◌>>=◌)

pub load_ok : (p : Ptr) (s : Store) (n : Node) → s.cell p ≡ some n → load p s ≡ some (n, s)
load_ok p s n e = rw (e, load)

pub set_prev_ok :
    (p q : Ptr) (s : Store) (n : Node)
    → s.cell p ≡ some n
    → set_prev p q s ≡ some (tt, record s { cell = update s.cell p (some (record n { prev = q })) })
set_prev_ok p q s n e = bind_ok (load p) _ s n s (load_ok p s n e)

pub set_next_ok :
    (p q : Ptr) (s : Store) (n : Node)
    → s.cell p ≡ some n
    → set_next p q s ≡ some (tt, record s { cell = update s.cell p (some (record n { next = q })) })
set_next_ok p q s n e = bind_ok (load p) _ s n s (load_ok p s n e)

pub free_ok :
    (p : Ptr) (s : Store) (n : Node)
    → s.cell p ≡ some n
    → free_node p s ≡ some (tt, record s { cell = update s.cell p none })
free_ok p s n e = bind_ok (load p) _ s n s (load_ok p s n e)

-- A step that has no result ends the whole.
pub bind_none :
    {A B : Type 0} (m : Cmd A) (k : A → Cmd B) (s : Store) → m s ≡ none → (m >>= k) s ≡ none
bind_none m k s e = rw (e, ◌>>=◌)

pub load-none : (p : Ptr) (s : Store) → s.cell p ≡ none → load p s ≡ none
load-none p s e = rw (e, load)
