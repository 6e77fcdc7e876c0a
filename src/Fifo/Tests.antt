-- ===== src/Fifo/Tests.antt =====
-- Messages over a pipe, and the theorems at them.
use package_compile_sys.Common.{
  ℕ, ◌≡◌, refl, List, [], ◌∷◌, some, false, arith, length, length-replicate, replicate,
}
use package_compile_sys.Common.Int.{pos}
use package_compile_sys.Fifo.{Reply, un_write, fifo_write, write_str, split_at, messages}
use package_compile_sys.Fifo.Frames.{on_pipe, messages-on_pipe}

abbrev willing : Reply
willing = record { took = 4096; eintr = false }

abbrev reluctant : Reply
reluctant = record { took = 1; eintr = false }

abbrev hello : List ℕ
hello = 104 ∷ 105 ∷ []

abbrev bye : List ℕ
bye = 94 ∷ 98 ∷ []

messages-two : messages 3 (on_pipe (hello ∷ bye ∷ [])) ≡ hello ∷ bye ∷ []
unfolding messages split_at
messages-two = refl

write_str-failed :
    write_str 1 (pos 3) (record { took = 0; eintr = false } ∷ []) [] hello
    ≡ some record { ret = pos 0; pipe = []; replies = [] }
unfolding write_str fifo_write un_write
write_str-failed = refl

messages-on_pipe_example : messages 3 (on_pipe (hello ∷ bye ∷ [])) ≡ hello ∷ bye ∷ []
messages-on_pipe_example =
    messages-on_pipe 3 (hello ∷ bye ∷ [])
      (
        ((λ q. omega arith), ((λ q. omega arith), tt)),
        (((λ q. omega arith), ((λ q. omega arith), tt)), tt),
      )
      (omega arith)

abbrev long_text : List ℕ
long_text = replicate 5000 7

long-size : length long_text ≡ 5000
long-size = length-replicate {A = ℕ} 5000 7
