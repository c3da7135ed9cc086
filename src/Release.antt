-- ===== src/Release.antt =====
-- internal/release: the archives, their checksums and the evidence of a release. The disk, and the
-- outcomes of the calls on it, which all of it shares.
pub mod Outcomes
pub mod Archive
pub mod Evidence
pub mod Agreement
pub mod Command
mod Tests
use cachy.Base.{
  ℕ, Bool, Option, none, some, List, [], ◌∷◌, ◌++◌, if◌then◌else◌, length, Result, ok, err,
}
use cachy.Text.{Bytes, codes, equal}
use cachy.Tokens.{Error}

-- What stands at a path: a directory, with its size, or a file.
pub data Node : Type 0 where
  directory : ℕ → Node
  file : Bytes → Node

abbrev pub Disk : Type 0
Disk = Bytes → Option Node

-- The outcomes of os.MkdirAll, os.Create, os.Open, os.Stat, of the archive's header, of io.Copy, of the
-- writers' Close, of os.ReadFile and os.WriteFile. A file whose writing fails holds `left`.
pub record Calls : Type 0 where
  pub mkdir_error : Option Error
  pub create_error : Option Error
  pub open_error : Option Error
  pub stat_error : Option Error
  pub header_error : Option Error
  pub copy_error : Option Error
  pub close_error : Option Error
  pub read_error : Option Error
  pub write_error : Option Error
  pub left : Bytes

-- path/filepath, SHA-256, and the printable runes.
pub record Tools : Type 0 where
  pub join_path : Bytes → Bytes → Bytes
  pub base : Bytes → Bytes
  pub to_slash : Bytes → Bytes
  pub sha256 : Bytes → Bytes
  pub is_print : ℕ → Bool

pub set_file : Disk → Bytes → Bytes → Disk
set_file disk path content = λ p. if equal p path then some (file content) else disk p

-- A call on the disk, and what it leaves if it fails.
abbrev pub unless {ℓ} :
    {A : Type ℓ} → Option Error → Disk → Disk × Result Error A → Disk × Result Error A
unless none failed rest = rest
unless (some e) failed rest = (failed, err e)

read_node : Option Node → Result Error Bytes
read_node none = err (codes "no such file or directory")
read_node (some (directory size)) = err (codes "is a directory")
read_node (some (file content)) = ok content

pub node_size : Node → ℕ
node_size (directory size) = size
node_size (file content) = length content

open_node : Option Node → Result Error Node
open_node none = err (codes "no such file or directory")
open_node (some node) = ok node

-- os.Open, os.Stat
pub open_file : Option Error → Disk → Bytes → Result Error Node
open_file (some e) disk path = err e
open_file none disk path = open_node (disk path)

-- A file that is opened and read, by the outcome of the call.
pub read_file : Option Error → Disk → Bytes → Result Error Bytes
read_file (some e) disk path = err e
read_file none disk path = read_node (disk path)

-- os.WriteFile
pub write_file : Calls → Disk → Bytes → Bytes → Disk × Result Error (Unit {0})
write_file c disk path content =
    unless c.write_error (set_file disk path c.left) (set_file disk path content, ok tt)
