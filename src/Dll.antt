-- ===== src/Dll.antt =====
-- app/lzUtils/common/dll_fifo.c and dll_fifo.h: a queue as a doubly linked list of heap nodes. The
-- heap is explicit: a call that reads or writes through a pointer to no node has no result. Each
-- function is what follows its test of the handle against NULL. `calloc` returns the address that
-- is an argument, 0 for a failure, and the payloads are numbers (pointers that are only moved,
-- compared and handed to the callbacks). The loops run on fuel. The callback `dat_destroy` is seen
-- by the payloads that it was given; `dat_show` and the log only print.
pub mod Heap
pub mod Chain
pub mod Queue
pub mod Ends
pub mod Walk
pub mod Clear
pub mod Unlink
pub mod Middle
pub mod Insert
pub mod Dangling
mod Tests
use package_compile_sys.Common.{
  ℕ, zero, suc, ◌+◌, ◌-◌, List, [], ◌∷◌, ◌++◌, Option, none, some, Bool, true, false, leb, ◌==◌,
  ltb, if◌then◌else◌,
}
use package_compile_sys.Common.Int.{ℤ, pos, negsuc}
use Heap.{
  Ptr, null, Node, Store, Cmd, pure, fault, ◌>>=◌, ◌>>◌, alloc, load, set_prev, set_next, free_node,
  destroyed,
}

-- `dll_fifo_par_t`: whether the callbacks are set, and how many nodes to start with.
pub record DllFifoPar : Type 0 where
  pub size : ℕ
  pub dat_create : Bool
  pub dat_destroy : Bool

-- `dll_fifo_t`.
pub record DllFifo : Type 0 where
  pub par : Option DllFifoPar
  pub front : Ptr
  pub back : Ptr
  pub size : ℕ

-- `nd` is what `calloc` returned.
unfoldable pub push_back : Ptr → DllFifo → ℕ → Cmd (Bool × DllFifo)
push_back nd f payload =
    if nd == null
    then pure (false, f)
    else (if f.size == 0
        then (do
          alloc nd payload
          pure (true, record f { front = nd; back = nd; size = f.size + 1 }))
        else (do
          alloc nd payload
          set_prev nd f.back
          set_next f.back nd
          pure (true, record f { back = nd; size = f.size + 1 })))

unfoldable pub push_front : Ptr → DllFifo → ℕ → Cmd (Bool × DllFifo)
push_front nd f payload =
    if nd == null
    then pure (false, f)
    else (if f.size == 0
        then (do
          alloc nd payload
          pure (true, record f { front = nd; back = nd; size = f.size + 1 }))
        else (do
          alloc nd payload
          set_next nd f.front
          set_prev f.front nd
          pure (true, record f { front = nd; size = f.size + 1 })))

-- The payload is `none` for NULL. With one node left only `front` is cleared.
unfoldable pub pop_front : DllFifo → Cmd (Option ℕ × DllFifo)
pop_front f =
    if f.size == 0
    then pure (none, f)
    else (if f.size == 1
        then (do
          nd ← load f.front
          free_node f.front
          pure (some nd.payload, record f { front = null; size = f.size - 1 }))
        else (do
          nd ← load f.front
          set_prev nd.next null
          free_node f.front
          pure (some nd.payload, record f { front = nd.next; size = f.size - 1 })))

-- With one node left only `back` is cleared.
unfoldable pub pop_back : DllFifo → Cmd (Option ℕ × DllFifo)
pop_back f =
    if f.size == 0
    then pure (none, f)
    else (if f.size == 1
        then (do
          nd ← load f.back
          free_node f.back
          pure (some nd.payload, record f { back = null; size = f.size - 1 }))
        else (do
          nd ← load f.back
          set_next nd.prev null
          free_node f.back
          pure (some nd.payload, record f { back = nd.prev; size = f.size - 1 })))

-- `for(; idx; idx = idx->next, i++) if(i == n) break;`: the node where it stops, NULL at the end.
unfoldable pub seek : ℕ → Ptr → ℕ → Cmd Ptr
seek zero idx n = fault
seek (suc k) idx zero = pure idx
seek (suc k) idx (suc n) = if idx == null then pure null else do nd ← load idx; seek k nd.next n

-- The same, until `idx->data == data`.
unfoldable pub find : ℕ → Ptr → ℕ → Cmd Ptr
find zero idx payload = fault
find (suc k) idx payload =
    if idx == null
    then pure null
    else do nd ← load idx; if nd.payload == payload then pure idx else find k nd.next payload

unfoldable pub get : ℕ → DllFifo → ℕ → Cmd (Option ℕ)
get fuel f n = do
  idx ← seek fuel f.front n
  if idx == null then pure none else do nd ← load idx; pure (some nd.payload)

unfoldable pub insert : ℕ → Ptr → DllFifo → ℕ → ℕ → Cmd (Bool × DllFifo)
insert fuel nd f payload n =
    if n == 0
    then push_front nd f payload
    else (if leb f.size n then push_back nd f payload else (do
      idx ← seek fuel f.front n
      if nd == null then pure (false, f) else do
        alloc nd payload
        set_next nd idx
        here ← load idx
        set_prev nd here.prev
        set_next here.prev nd
        set_prev idx nd
        pure (true, record f { size = f.size + 1 })))

-- `ptr->mPar->dat_destroy`, a read through NULL where no parameters were given.
unfoldable pub release : DllFifo → ℕ → Cmd (Unit {0})
release f payload = elim f.par [
  | none ↦ fault
  | some par ↦ if par.dat_destroy then destroyed payload else pure tt
]

-- The common end of `dll_fifo_erase` and `dll_fifo_remove`.
unfoldable pub unlink : DllFifo → Ptr → Cmd DllFifo
unlink f idx = do
  nd ← load idx
  if nd.prev == null then pure tt else set_next nd.prev nd.next
  if nd.next == null then pure tt else set_prev nd.next nd.prev
  release f nd.payload
  free_node idx
  pure (record f {
    front = if nd.prev == null then nd.next else f.front;
    back = if nd.next == null then nd.prev else f.back;
    size = f.size - 1;
  })

unfoldable pub erase : ℕ → DllFifo → ℕ → Cmd (Bool × DllFifo)
erase fuel f payload = do
  idx ← find fuel f.front payload
  if idx == null then pure (false, f) else do f' ← unlink f idx; pure (true, f')

-- A node that is not there makes it `return -1`, which is `true`.
unfoldable pub remove : ℕ → DllFifo → ℕ → Cmd (Bool × DllFifo)
remove fuel f n = do
  idx ← seek fuel f.front n
  if idx == null then pure (true, f) else do f' ← unlink f idx; pure (true, f')

-- The loop of `dll_fifo_clear` and `dll_fifo_destroy`.
unfoldable pub free_all : ℕ → DllFifo → Ptr → Cmd (Unit {0})
free_all zero f nd = fault
free_all (suc k) f nd =
    if nd == null
    then pure tt
    else do tmp ← load nd; release f tmp.payload; free_node nd; free_all k f tmp.next

unfoldable pub clear : ℕ → DllFifo → Cmd (Bool × DllFifo)
clear fuel f = do
  free_all fuel f f.front
  pure (true, record f { front = null; back = null; size = 0 })

unfoldable pub destroy : ℕ → DllFifo → Cmd Bool
destroy fuel f = do free_all fuel f f.front; pure true

-- `dat_show`, which only prints, is found through `mPar` too.
unfoldable pub show : DllFifo → Cmd (Unit {0})
show f = elim f.par [ none ↦ fault | some par ↦ pure tt ]

unfoldable pub show_all : ℕ → (Node → Ptr) → DllFifo → Ptr → Cmd (Unit {0})
show_all zero along f nd = fault
show_all (suc k) along f nd =
    if nd == null then pure tt else do n ← load nd; show f; show_all k along f (along n)

unfoldable pub show_at : ℕ → (Node → Ptr) → DllFifo → Ptr → ℕ → Cmd (Option ℕ)
show_at zero along f nd n = fault
show_at (suc k) along f nd n = if nd == null then pure none else do
  here ← load nd
  elim n [ zero ↦ do show f; pure (some here.payload) | suc m ↦ show_at k along f (along here) m ]

-- A negative index shows every node and returns NULL.
unfoldable pub query : ℕ → DllFifo → ℤ → Cmd (Option ℕ)
query fuel f (pos n) = show_at fuel (λ n. n.next) f f.front n
query fuel f (negsuc n) = do show_all fuel (λ n. n.next) f f.front; pure none

unfoldable pub rquery : ℕ → DllFifo → ℤ → Cmd (Option ℕ)
rquery fuel f (pos n) = show_at fuel (λ n. n.prev) f f.back n
rquery fuel f (negsuc n) = do show_all fuel (λ n. n.prev) f f.back; pure none

-- Each round of `dll_fifo_create` takes the payload that `dat_create` returned, 0 for NULL, and
-- the address that `calloc` returned for its node. A failure destroys what was made.
unfoldable pub fill_new : ℕ → List (ℕ × Ptr) → ℕ → DllFifo → Cmd (Option DllFifo)
fill_new zero made fuel f = pure (some f)
fill_new (suc k) [] fuel f = do _ ← destroy fuel f; pure none
fill_new (suc k) ((payload, nd) ∷ made) fuel f =
    if payload == 0 then (do _ ← destroy fuel f; pure none) else (do
      (pushed, f') ← push_back nd f payload
      if pushed
          then fill_new k made fuel f'
          else do release f payload; _ ← destroy fuel f; pure none)

-- `called` tells whether `calloc` of the handle succeeded.
unfoldable pub create : Bool → Option DllFifoPar → List (ℕ × Ptr) → ℕ → Cmd (Option DllFifo)
create called par made fuel =
    if called
    then (let f : DllFifo = record { par = par; front = null; back = null; size = 0 } in
        elim par [
          | none ↦ pure (some f)
          | some p ↦ if p.dat_create then fill_new p.size made fuel f else pure (some f)
        ])
    else pure none
