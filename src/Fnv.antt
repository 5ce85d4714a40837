-- ===== src/Fnv.antt =====
-- FNV-1a over 32 bits, Go's `hash/fnv.New32a`, as internal/task/task.go and
-- plugins/reporter/hep/hep.go use it.
use Prim.Native.Nat.{bit_xor}
use otus.Base.{◌≡◌, ℕ, Bytes, ◌∷◌, u32, ◌++◌, [], ◌*◌, refl}

abbrev pub offset_basis : ℕ
offset_basis = 2166136261

abbrev pub prime : ℕ
prime = 16777619

-- `h.Write(bs)`
unfoldable pub write : ℕ → Bytes → ℕ
write h [] = h
write h (b ∷ bs) = write (u32 (bit_xor h b * prime)) bs

-- `h.Sum32()` after the writes.
unfoldable pub sum32 : Bytes → ℕ
unfolding write
sum32 bs = write offset_basis bs

pub write-append : (h : ℕ) (xs ys : Bytes) → write h (xs ++ ys) ≡ write (write h xs) ys
unfolding write
write-append h [] ys = refl
write-append h (x ∷ xs) ys = write-append (u32 (bit_xor h x * prime)) xs ys

known_hash : sum32 (97 ∷ []) ≡ 0xe40c292c
unfolding sum32
known_hash = refl
