-- ===== src/Release/Command/Tests.antt =====
-- A run of `cachy-release package`.
use cachy.Base.{List, [], ◌∷◌}
use cachy.Text.{Bytes, codes}
use cachy.Cli.Flags.{Values}
use cachy.Release.Archive.Packaged.{Packaged}

abbrev args : List Bytes
args =
    codes "--input"
    ∷ codes "d/b"
    ∷ codes "--goos=linux"
    ∷ codes "-goarch"
    ∷ codes "amd64"
    ∷ codes "--out"
    ∷ codes "d"
    ∷ []

abbrev values : Values
values =
    (codes "input", codes "d/b")
    ∷ (codes "goos", codes "linux")
    ∷ (codes "goarch", codes "amd64")
    ∷ (codes "out", codes "d")
    ∷ []
