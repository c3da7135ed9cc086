-- ===== src/Release/Archive/Written.antt =====
-- What the writers of the archive and of the checksum leave, if they succeed.
use cachy.Base.{
  ℕ, Bool, true, false, ◌≡◌, ◌==◌, refl, sym, ap, ◌∙◌, Option, none, some, [], ◌∷◌, ◌++◌,
  if◌then◌else◌, length, Result, ok, err, arith,
}
use cachy.Text.{Bytes, codes, equal}
use cachy.Tokens.{Error}
use cachy.Release.{
  Disk, Node, file, Calls, Tools, set_file, read_file, open_file, node_size, write_file,
}
use cachy.Release.Outcomes.{unless-ok, read_file-ok, set_file_there, open_file-ok}
use cachy.Release.Archive.{
  Writers, zip_format, tar_gz_format, closed, zip_copied, write_zip, tar_copied, tar_opened,
  write_tar_gz, checksum_line, checksum_of, write_checksum, write_archive,
}

equal-append : (s : Bytes) (c : ℕ) (cs : Bytes) → equal s (s ++ (c ∷ cs)) ≡ false
unfolding equal
equal-append [] c cs = refl
equal-append (d ∷ s) c cs = ground (arith, equal-append s c cs)

-- What a call that ends with writing a file leaves in it.
ends_with :
    (disk disk' : Disk) (path content : Bytes)
    → ◌≡◌ {A = Disk × Result Error (Unit {0})} (set_file disk path content, ok tt) (disk', ok tt)
    → disk' path ≡ some (file content)
ends_with disk disk' path content h =
    ap (λ (r : Disk × Result Error (Unit {0})). r.0 path) (sym h) ∙ set_file_there disk path content

module _ (t : Tools) (c : Calls) (disk disk' : Disk) (archive binary b : Bytes)
    (encode : Bytes → Bytes) (there : disk binary ≡ some (file b))
    (apart : equal binary archive ≡ false) where
  -- Creating the archive leaves the binary.
  read_binary :
      (outcome : Option Error) (content : Bytes)
      → read_file outcome (set_file disk archive []) binary ≡ ok content
      → content ≡ b
  unfolding set_file
  read_binary outcome content h =
      let found = read_file-ok outcome (set_file disk archive []) binary content h in
      cc (rw (apart, there) at found)

  zip_copied-ok :
      (r : Result Error Bytes)
      → zip_copied t c disk archive encode r ≡ (disk', ok tt)
      → (content : Bytes) × (r ≡ ok content)
        × (disk' archive ≡ some (file (closed c (encode content))))
  unfolding zip_copied
  zip_copied-ok (err e) h = cc h
  zip_copied-ok (ok content) h =
      (content, refl, ends_with disk disk' archive _ (unless-ok c.copy_error _ disk' _ tt h))

  write_zip-ok :
      write_zip t c disk archive binary encode ≡ (disk', ok tt)
      → disk' archive ≡ some (file (closed c (encode b)))
  unfolding write_zip
  write_zip-ok h =
      let copied =
        unless-ok c.header_error _ disk' _ tt (unless-ok c.create_error _ disk' _ tt h) in
      let (content, read, written) = zip_copied-ok _ copied in
      rw (read_binary c.open_error content read) at written

  tar_copied-ok :
      (size : ℕ) (r : Result Error Bytes)
      → size ≡ length b
      → ((content : Bytes) → r ≡ ok content → content ≡ b)
      → tar_copied t c disk archive encode size r ≡ (disk', ok tt)
      → disk' archive ≡ some (file (closed c (encode b)))
  unfolding tar_copied
  tar_copied-ok size (err e) full same h = cc h
  tar_copied-ok size (ok content) full same h =
      let whole : (length content == size) ≡ true = rw (full, same content refl) (ground arith) in
      let written = ends_with disk disk' archive _ (unless-ok c.copy_error _ disk' _ tt h) in
      rw (same content refl) at rw whole at written

  tar_opened-ok :
      (r : Result Error Node)
      → ((node : Node) → r ≡ ok node → node ≡ file b)
      → tar_opened t c disk archive binary encode r ≡ (disk', ok tt)
      → disk' archive ≡ some (file (closed c (encode b)))
  unfolding tar_opened node_size
  tar_opened-ok (err e) same h = cc h
  tar_opened-ok (ok node) same h =
      let copied =
        unless-ok c.header_error _ disk' _ tt
          (unless-ok c.create_error _ disk' _ tt (unless-ok c.stat_error _ disk' _ tt h)) in
      tar_copied-ok (node_size node) _ (ap node_size (same node refl)) (read_binary none) copied

  write_tar_gz-ok :
      write_tar_gz t c disk archive binary encode ≡ (disk', ok tt)
      → disk' archive ≡ some (file (closed c (encode b)))
  unfolding write_tar_gz
  write_tar_gz-ok h =
      tar_opened-ok (open_file c.open_error disk binary)
        (λ node opened. cc (open_file-ok c.open_error disk binary node opened, there)) h

-- The archive of a binary in a format.
abbrev pub encoded : Writers → Bytes → Bytes → Bytes
encoded writers format b =
    if equal format zip_format
    then writers.zip (codes "cachy.exe") b
    else writers.tar_gz (codes "cachy") b

module _ (t : Tools) (c : Calls) (writers : Writers) (disk disk' : Disk) (archive : Bytes) where
  by_format :
      (binary b : Bytes) (message : Error) (is_zip is_tar : Bool)
      → disk binary ≡ some (file b)
      → equal binary archive ≡ false
      → (if is_zip
          then write_zip t c disk archive binary (writers.zip (codes "cachy.exe"))
          else if is_tar
          then write_tar_gz t c disk archive binary (writers.tar_gz (codes "cachy"))
          else (disk, err message))
        ≡ (disk', ok tt)
      → disk' archive
        ≡ some (
            file (
              closed c (
                if is_zip
                then writers.zip (codes "cachy.exe") b
                else writers.tar_gz (codes "cachy") b)))
  by_format binary b message true is_tar there apart h =
      write_zip-ok t c disk disk' archive binary b (writers.zip (codes "cachy.exe")) there apart h
  by_format binary b message false true there apart h =
      write_tar_gz-ok t c disk disk' archive binary b (writers.tar_gz (codes "cachy")) there apart h
  by_format binary b message false false there apart h = cc h

  checksum_of-ok :
      (content : Bytes) (r : Result Error Bytes)
      → disk archive ≡ some (file content)
      → ((content' : Bytes) → r ≡ ok content' → content' ≡ content)
      → checksum_of t c disk archive (archive ++ codes ".sha256") r ≡ (disk', ok tt)
      → (disk' archive ≡ some (file content))
        × (disk' (archive ++ codes ".sha256") ≡ some (file (checksum_line t c archive content)))
  unfolding checksum_of write_file set_file
  checksum_of-ok content (err e) there same h = cc h
  checksum_of-ok content (ok content') there same h =
      let written = unless-ok c.write_error _ disk' _ tt h in
      (
        ap (λ (r : Disk × Result Error (Unit {0})). r.0 archive) (sym written)
            ∙ rw (equal-append archive 46 (codes "sha256")) there,
        rw (same content' refl) at (ends_with disk disk' (archive ++ codes ".sha256") _ written),
      )

  pub write_archive-ok :
      (binary b format : Bytes)
      → disk binary ≡ some (file b)
      → equal binary archive ≡ false
      → write_archive t c writers disk archive binary format ≡ (disk', ok tt)
      → disk' archive ≡ some (file (closed c (encoded writers format b)))
  unfolding write_archive
  write_archive-ok binary b format there apart h =
      by_format binary b _ (equal format zip_format) (equal format tar_gz_format) there apart h

  -- The checksum is that of the file.
  pub write_checksum-ok :
      (content : Bytes)
      → disk archive ≡ some (file content)
      → write_checksum t c disk archive (archive ++ codes ".sha256") ≡ (disk', ok tt)
      → (disk' archive ≡ some (file content))
        × (disk' (archive ++ codes ".sha256") ≡ some (file (checksum_line t c archive content)))
  unfolding write_checksum
  write_checksum-ok content there h =
      checksum_of-ok content (read_file c.read_error disk archive) there
        (λ content' read. cc (read_file-ok c.read_error disk archive content' read, there)) h
