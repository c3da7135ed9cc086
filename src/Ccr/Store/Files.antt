-- ===== src/Ccr/Store/Files.antt =====
-- Files by path. The latest write of a path stands first.
use cachy.Base.{◌≡◌, refl, Option, none, some, List, [], ◌∷◌, arith, if◌then◌else◌}
use cachy.Text.{Bytes, equal, equal_iff}

abbrev pub Disk : Type 0
Disk = List (Bytes × Bytes)

unfoldable pub read : Bytes → Disk → Option Bytes
read p [] = none
read p ((q, c) ∷ d) = if equal q p then some c else read p d

pub write : Bytes → Bytes → Disk → Disk
write p c d = (p, c) ∷ d

pub remove : Bytes → Disk → Disk
remove p [] = []
remove p ((q, c) ∷ d) = let rest = remove p d in if equal q p then rest else (q, c) ∷ rest

pub read-write :
    (p q c : Bytes) (d : Disk) → read q (write p c d) ≡ (if equal p q then some c else read q d)
unfolding read write
read-write p q c d = refl

pub read-remove :
    (p q : Bytes) (d : Disk) → read q (remove p d) ≡ (if equal p q then none else read q d)
unfolding read remove
read-remove p q [] = ground arith
read-remove p q ((r, c) ∷ d) =
    ground (arith, read-remove p q d, equal_iff r p, equal_iff r q, equal_iff p q)
