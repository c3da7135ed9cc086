-- ===== src/Install/Codex/Block.antt =====
-- The rendered block, line by line, and where its markers are found.
use cachy.Base.{
  ◌≡◌, refl, ap, ◌∙◌, sym, Bool, true, false, not, ◌||◌, some, List, [], ◌∷◌, ◌++◌, Bool-cases, inl,
  inr, if◌then◌else◌, any, append_assoc, All,
}
use cachy.Text.{Bytes, codes, join, find, contains, has_prefix}
use cachy.Text.Quote.{quote}
use cachy.Text.Lines.{
  contains-append, is_word, find-line, find_self, contains-skip, contains-prefix, contains_self,
}
use cachy.Install.{Tools}
use cachy.Install.Codex.{
  managed_codex_begin, managed_codex_end, managed_note, block_lines, render_codex_managed_block,
}

-- Lines, each with its line feed.
abbrev pub text_of : List Bytes → Bytes
text_of [] = []
text_of (l ∷ ls) = l ++ 10 ∷ text_of ls

join-text_of :
    (l : Bytes) (ls : List Bytes) → join (l ∷ ls) (codes "\n") ++ codes "\n" ≡ text_of (l ∷ ls)
unfolding join
join-text_of l [] = refl
join-text_of l (m ∷ ls) = simp append_assoc (ap (λ (s : Bytes). l ++ 10 ∷ s) (join-text_of m ls))

-- A line that is a word is found behind lines that do not have the word.
pub find-text_of :
    (ls : List Bytes) (m rest : Bytes)
    → is_word m ≡ true
    → All (λ l. contains l m ≡ false) ls
    → find (text_of ls ++ (m ++ rest)) m ≡ some (text_of ls, m ++ rest)
find-text_of [] m rest w h = find_self m rest
find-text_of (l ∷ ls) m rest w h =
    rw
      (
        append_assoc l (10 ∷ text_of ls) (m ++ rest),
        find-line l (text_of ls ++ (m ++ rest)) m w h.0,
        find-text_of ls m rest w h.1,
      )
      refl

text_of-append : (ls ms : List Bytes) → text_of (ls ++ ms) ≡ text_of ls ++ text_of ms
text_of-append [] ms = refl
text_of-append (l ∷ ls) ms =
    rw (text_of-append ls ms) (sym (append_assoc l (10 ∷ text_of ls) (text_of ms)))

-- The lines before the last one.
pub body_lines : Tools → Bytes → Bool → List Bytes
body_lines t url preserve =
    managed_codex_begin
    ∷ managed_note
    ∷ ((if not preserve then codes "model_provider = \"cachy\"" ∷ [] else [])
        ++ codes "[model_providers.cachy]"
          ∷ codes "name = \"Cachy\""
          ∷ (codes "base_url = " ++ quote t.is_print url)
          ∷ codes "env_key = \"OPENAI_API_KEY\""
          ∷ codes "wire_api = \"responses\""
          ∷ [])

module _ (t : Tools) (url : Bytes) where
  block_lines_lem :
      (preserve : Bool)
      → block_lines t url preserve ≡ body_lines t url preserve ++ managed_codex_end ∷ []
  unfolding block_lines body_lines
  block_lines_lem true = refl
  block_lines_lem false = refl

  joined_lines :
      (preserve : Bool)
      → join (body_lines t url preserve ++ managed_codex_end ∷ []) (codes "\n") ++ codes "\n"
        ≡ text_of (body_lines t url preserve ++ managed_codex_end ∷ [])
  unfolding body_lines
  joined_lines true = join-text_of _ _
  joined_lines false = join-text_of _ _

  pub block_text :
      (preserve : Bool)
      → render_codex_managed_block t url preserve
        ≡ text_of (body_lines t url preserve) ++ (managed_codex_end ++ codes "\n")
  unfolding render_codex_managed_block
  block_text preserve =
      ap (λ (ls : List Bytes). join ls (codes "\n") ++ codes "\n") (block_lines_lem preserve)
      ∙ joined_lines preserve
      ∙ text_of-append (body_lines t url preserve) (managed_codex_end ∷ [])

  -- The block begins with its marker.
  pub find-block_begin :
      (preserve : Bool)
      → find (render_codex_managed_block t url preserve) managed_codex_begin
        ≡ some ([], render_codex_managed_block t url preserve)
  unfolding body_lines find has_prefix
  find-block_begin preserve = rw (block_text preserve) refl

  module _ (clean : contains (quote t.is_print url) managed_codex_end ≡ false) where
    base_url-end : contains (codes "base_url = " ++ quote t.is_print url) managed_codex_end ≡ false
    base_url-end =
        contains-skip (codes "base_url = ") (quote t.is_print url) 35
          (codes " END CACHY CODEX INTEGRATION") refl
        ∙ clean

    fixed_lines-end :
        All
          (λ l. contains l managed_codex_end ≡ false)
          (managed_codex_begin
            ∷ managed_note
            ∷ codes "model_provider = \"cachy\""
            ∷ codes "[model_providers.cachy]"
            ∷ codes "name = \"Cachy\""
            ∷ codes "env_key = \"OPENAI_API_KEY\""
            ∷ codes "wire_api = \"responses\""
            ∷ [])
    unfolding contains has_prefix
    fixed_lines-end = (refl, (refl, (refl, (refl, (refl, (refl, (refl, tt)))))))

    pub body_lines-end :
        (preserve : Bool)
        → All (λ l. contains l managed_codex_end ≡ false) (body_lines t url preserve)
    unfolding body_lines
    body_lines-end true =
        let (a, (b, (p, (c, (d, (e, (f, g))))))) = fixed_lines-end in
        (a, (b, (c, (d, (base_url-end, (e, (f, tt)))))))
    body_lines-end false =
        let (a, (b, (p, (c, (d, (e, (f, g))))))) = fixed_lines-end in
        (a, (b, (p, (c, (d, (base_url-end, (e, (f, tt))))))))

-- A word in one of the lines is in their text, whatever follows.
contains-text_of :
    (ls : List Bytes) (m rest : Bytes)
    → any (λ l. contains l m) ls ≡ true
    → contains (text_of ls ++ rest) m ≡ true
contains-text_of [] m rest h = cc
contains-text_of (l ∷ ls) m rest h = elim (Bool-cases (contains l m)) [
  | inl here ↦
      rw (append_assoc l (10 ∷ text_of ls) rest)
        (contains-prefix l (10 ∷ (text_of ls ++ rest)) m here)
  | inr later ↦ rw (append_assoc l (10 ∷ text_of ls) rest) (
      contains-append l (10 ∷ (text_of ls ++ rest)) m (
        contains-append (10 ∷ []) (text_of ls ++ rest) m
          (contains-text_of ls m rest (rw later at h))))
]

or_true : (b : Bool) → (b || true) ≡ true
or_true true = refl
or_true false = refl

-- Some line has the word.
abbrev Holds : Tools → Bytes → Bool → Bytes → Type 0
Holds t url preserve m = any (λ l. contains l m) (body_lines t url preserve) ≡ true

has_lines :
    (t : Tools) (url : Bytes) (preserve : Bool)
    → Holds t url preserve managed_codex_begin
      × Holds t url preserve (codes "[model_providers.cachy]")
      × Holds t url preserve (codes "base_url =")
      × Holds t url preserve (codes "env_key = \"OPENAI_API_KEY\"")
      × Holds t url preserve (codes "wire_api = \"responses\"")
unfolding body_lines contains has_prefix
has_lines t url true = (
  refl,
  refl,
  refl,
  or_true (contains (quote t.is_print url) (codes "env_key = \"OPENAI_API_KEY\"")),
  or_true (contains (quote t.is_print url) (codes "wire_api = \"responses\"")),
)
has_lines t url false = (
  refl,
  refl,
  refl,
  or_true (contains (quote t.is_print url) (codes "env_key = \"OPENAI_API_KEY\"")),
  or_true (contains (quote t.is_print url) (codes "wire_api = \"responses\"")),
)

module _ (t : Tools) (url : Bytes) (preserve : Bool) where
  block_has :
      (m : Bytes)
      → any (λ l. contains l m) (body_lines t url preserve) ≡ true
      → contains (render_codex_managed_block t url preserve) m ≡ true
  block_has m h =
      rw (block_text t url preserve)
        (contains-text_of (body_lines t url preserve) m (managed_codex_end ++ codes "\n") h)

  -- The block has both markers and all the settings of the provider.
  pub contains-block :
      (contains (render_codex_managed_block t url preserve) managed_codex_begin ≡ true)
      × (contains (render_codex_managed_block t url preserve) managed_codex_end ≡ true)
      × All
          (λ m. contains (render_codex_managed_block t url preserve) m ≡ true)
          (codes "[model_providers.cachy]"
            ∷ codes "base_url ="
            ∷ codes "env_key = \"OPENAI_API_KEY\""
            ∷ codes "wire_api = \"responses\""
            ∷ [])
  contains-block =
      let (first, provider, base, env, wire) = has_lines t url preserve in
      (
        block_has managed_codex_begin first,
        rw (block_text t url preserve) (
            contains-append (text_of (body_lines t url preserve)) (managed_codex_end ++ codes "\n")
              managed_codex_end (contains_self managed_codex_end (codes "\n"))),
        (
          block_has (codes "[model_providers.cachy]") provider,
          (
            block_has (codes "base_url =") base,
            (
              block_has (codes "env_key = \"OPENAI_API_KEY\"") env,
              (block_has (codes "wire_api = \"responses\"") wire, tt),
            ),
          ),
        ),
      )
