-- ===== src/Autom/Tests.antt =====
-- A buffer of four bytes, and the theorems at it.
use package_compile_sys.Common.{
  ℕ, ◌≤◌, ◌<◌, ◌≡◌, refl, List, [], ◌∷◌, some, none, true, arith, take, drop,
}
use package_compile_sys.Autom.{Autom, write, read, reset, write_block, store, resize}
use package_compile_sys.Autom.Write.{IsBuffer, Written, unread, write_behind}
use package_compile_sys.Autom.Read.{read_oldest}

abbrev block : List ℕ
block = 1 ∷ 2 ∷ 3 ∷ 0 ∷ []

-- Three bytes were written, one of them was read.
abbrev buffer : Autom
buffer = record { pre_bytes = 4; cur_bytes = 2; head = some block; tail = some 3 }

buffer-IsBuffer : IsBuffer buffer block 3
buffer-IsBuffer = record {
  head = refl;
  tail = refl;
  size = refl;
  cur = omega arith;
  within = omega arith;
}

-- Bytes 2 and 3 were not read yet: the write puts 9 in the place of 3, and the next reads return
-- byte 1 once more.
write-buffer :
    write true (λ n. n) buffer (9 ∷ []) 1
    ≡ some (
      some 1,
      record { pre_bytes = 4; cur_bytes = 3; head = some (1 ∷ 2 ∷ 9 ∷ 0 ∷ []); tail = some 3 },
    )
unfolding write write_block store resize
write-buffer = refl

write_behind_example :
    (q : Autom) × (write true (λ n. n) buffer (7 ∷ 8 ∷ []) 2 ≡ some (some 2, q))
    × Written buffer block (7 ∷ 8 ∷ []) 2 q
    × (buffer.cur_bytes ≡ 3 → take 2 block ≡ unread 2 block 3)
write_behind_example =
    write_behind (λ n. n) buffer block (7 ∷ 8 ∷ []) 2 3 buffer-IsBuffer (omega arith) (omega arith)

read_oldest_example :
    ((2 < 1) → read buffer 1 ≡ some (none, buffer))
    × ((1 ≤ 2)
        → (q : Autom) × (read buffer 1 ≡ some (some 1, q))
          × IsBuffer q block 3
          × (take 1 (drop 1 block) ≡ take 1 (unread 2 block 3))
          × (unread q.cur_bytes block 3 ≡ drop 1 (unread 2 block 3))
          × ((r : Autom) × (reset q ≡ some r) × IsBuffer r block 3 × (r.cur_bytes ≡ 3)))
read_oldest_example = read_oldest buffer block 1 3 buffer-IsBuffer
