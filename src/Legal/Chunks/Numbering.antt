-- ===== src/Legal/Chunks/Numbering.antt =====
-- The numbers and the order of the chunks.
use reguard.Prelude.{ℕ, suc, List, [], ◌∷◌, ◌≡◌}
use reguard.Legal.Chunks.{ChunkKind, Chunk}

-- Chunks of one kind, numbered from `n`
abbrev pub IsRun : ChunkKind → ℕ → List Chunk → Type 0
IsRun kind n [] = Unit
IsRun kind n (c ∷ cs) = (c.idx ≡ n) × (c.chunk_kind ≡ kind) × IsRun kind (suc n) cs
