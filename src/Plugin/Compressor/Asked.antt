-- ===== src/Plugin/Compressor/Asked.antt =====
-- Which plugin the compressor asks, and what it makes of the answer.
use cachy.Base.{
  ◌≡◌, ◌≢◌, refl, true, false, Bool-cases, inl, inr, ◌⊎◌, List, [], ◌∷◌, arith, any, Result, ok,
  err, ◌>>=◌, none,
}
use cachy.Text.{Bytes, codes, equal, equal_iff}
use cachy.Tokens.{Error}
use cachy.Compress.Block.{Block}
use cachy.Compress.Pipeline.{Proposal}
use cachy.Plugin.Host.{PluginOutput}
use cachy.Plugin.Compressor.{
  Info, Host, can_plugin_compress, content_type_text, block_input, proposed, ask, compress,
  load_plugins,
}

-- A capability is declared.
abbrev pub Declares : Bytes → List Bytes → Type 0
Declares kind [] = ⊥
Declares kind (c ∷ cs) = (c ≡ kind) ⊎ Declares kind cs

-- The plugin is enabled and declares the type of the block.
abbrev pub Serves : Block → Info → Type 0
Serves block info =
    (info.enabled ≡ true)
    × Declares (content_type_text block.content_type) info.manifest.capabilities.compress

-- What the compressor returns from a plugin: its file cannot be read, its run fails, it replaces the
-- text, or it leaves it.
pub data Answered (host : Host) (block : Block) (info : Info) : Result Error Proposal → Type 0 where
  unreadable : {e : Error} → host.read_wasm info ≡ err e → Answered host block info (err e)
  failed :
      {wasm : Bytes} {e : Error}
      → host.read_wasm info ≡ ok wasm
      → host.runner info.manifest wasm (block_input host block) ≡ err e
      → Answered host block info (err e)
  replaced :
      {wasm : Bytes} {output : PluginOutput}
      → host.read_wasm info ≡ ok wasm
      → host.runner info.manifest wasm (block_input host block) ≡ ok output
      → output.action ≡ codes "replace"
      → Answered host block info (ok (record { text = output.text; bytes = none }))
  left :
      {wasm : Bytes} {output : PluginOutput}
      → host.read_wasm info ≡ ok wasm
      → host.runner info.manifest wasm (block_input host block) ≡ ok output
      → output.action ≢ codes "replace"
      → Answered host block info (ok (record { text = block.content; bytes = none }))

-- What the compressor returns from its plugins: the answer of the first one that serves the block, or
-- the text as it is.
pub data Asked (host : Host) (block : Block) : List Info → Result Error Proposal → Type 0 where
  nobody : Asked host block [] (ok (record { text = block.content; bytes = none }))
  this :
      {info : Info} {infos : List Info} {r : Result Error Proposal}
      → Serves block info
      → Answered host block info r
      → Asked host block (info ∷ infos) r
  next :
      {info : Info} {infos : List Info} {r : Result Error Proposal}
      → ¬ Serves block info
      → Asked host block infos r
      → Asked host block (info ∷ infos) r

any-Declares :
    (kind : Bytes) (cs : List Bytes) → any (λ c. equal c kind) cs ≡ true → Declares kind cs
any-Declares kind [] h = cc h
any-Declares kind (c ∷ cs) h = elim (Bool-cases (equal c kind)) [
  | inl same ↦ inl ((equal_iff c kind).0 same)
  | inr other ↦ inr (any-Declares kind cs (ground arith))
]

Declares-any :
    (kind : Bytes) (cs : List Bytes) → Declares kind cs → any (λ c. equal c kind) cs ≡ true
Declares-any kind [] declares = elim declares [ ]
Declares-any kind (c ∷ cs) (inl same) = rw ((equal_iff c kind).1 same) refl
Declares-any kind (c ∷ cs) (inr later) = ground (arith, Declares-any kind cs later)

can-Serves :
    (block : Block) (info : Info)
    → can_plugin_compress info block.content_type ≡ true
    → Serves block info
unfolding can_plugin_compress
can-Serves block info can = (
  ground arith,
  any-Declares (content_type_text block.content_type) info.manifest.capabilities.compress
      (ground arith),
)

cannot-Serves :
    (block : Block) (info : Info)
    → can_plugin_compress info block.content_type ≡ false
    → ¬ Serves block info
unfolding can_plugin_compress
cannot-Serves block info cannot (enabled, declares) =
    ground (arith, enabled, Declares-any _ _ declares)

module _ (host : Host) (block : Block) where
  run-Answered :
      (info : Info) (wasm : Bytes) (r : Result Error PluginOutput)
      → host.read_wasm info ≡ ok wasm
      → host.runner info.manifest wasm (block_input host block) ≡ r
      → Answered host block info (do output ← r; ok (proposed block output))
  run-Answered info wasm (err e) found ran = failed found ran
  run-Answered info wasm (ok output) found ran =
      elim (Bool-cases (equal output.action (codes "replace"))) [
        | inl same ↦
            rw same (replaced found ran ((equal_iff output.action (codes "replace")).0 same))
        | inr other ↦ rw other (
            left found ran (λ same. cc (other, (equal_iff output.action (codes "replace")).1 same)))
      ]

  read-Answered :
      (info : Info) (r : Result Error Bytes)
      → host.read_wasm info ≡ r
      → Answered host block info (do
        wasm ← r
        output ← host.runner info.manifest wasm (block_input host block)
        ok (proposed block output))
  read-Answered info (err e) found = unreadable found
  read-Answered info (ok wasm) found = run-Answered info wasm _ found refl

  ask-Answered : (info : Info) → Answered host block info (ask host info block)
  unfolding ask
  ask-Answered info = read-Answered info (host.read_wasm info) refl

  -- The compressor asks the first plugin that is enabled and declares the type of the block, and no
  -- other. It returns the error of reading or running it, the plugin's text if its action is to
  -- replace, and otherwise the block's text, which it also returns where there is no such plugin.
  pub compress-Asked : (infos : List Info) → Asked host block infos (compress host infos block)
  unfolding compress
  compress-Asked [] = nobody
  compress-Asked (info ∷ infos) = elim (Bool-cases (can_plugin_compress info block.content_type)) [
    | inl can ↦ rw can (this (can-Serves block info can) (ask-Answered info))
    | inr cannot ↦ rw cannot (next (cannot-Serves block info cannot) (compress-Asked infos))
  ]

  -- Loading only the enabled plugins changes no proposal.
  compress-load_plugins :
      (infos : List Info) → compress host (load_plugins infos) block ≡ compress host infos block
  unfolding compress load_plugins can_plugin_compress
  compress-load_plugins [] = refl
  compress-load_plugins (info ∷ infos) = ground (arith, compress-load_plugins infos)
