-- ===== src/Release/Outcomes.antt =====
-- What a call on the disk that succeeds has done.
use cachy.Base.{◌≡◌, refl, Option, none, some, Result, ok, arith}
use cachy.Text.{Bytes, equal_refl}
use cachy.Tokens.{Error}
use cachy.Release.{Disk, Node, file, set_file, unless, read_file, read_node, open_file, open_node}

pub unless-ok {ℓ} :
    {A : Type ℓ} (outcome : Option Error) (disk disk' : Disk) (rest : Disk × Result Error A) (a : A)
    → unless outcome disk rest ≡ (disk', ok a)
    → rest ≡ (disk', ok a)
unless-ok none disk disk' rest a h = h
unless-ok (some e) disk disk' rest a h = cc h

pub read_file-ok :
    (outcome : Option Error) (disk : Disk) (path content : Bytes)
    → read_file outcome disk path ≡ ok content
    → disk path ≡ some (file content)
unfolding read_file read_node
read_file-ok outcome disk path content h = ground arith

pub set_file_there :
    (disk : Disk) (path content : Bytes) → set_file disk path content path ≡ some (file content)
unfolding set_file
set_file_there disk path content = rw (equal_refl path) refl

pub open_file-ok :
    (outcome : Option Error) (disk : Disk) (path : Bytes) (node : Node)
    → open_file outcome disk path ≡ ok node
    → disk path ≡ some node
unfolding open_file open_node
open_file-ok outcome disk path node h = ground arith
