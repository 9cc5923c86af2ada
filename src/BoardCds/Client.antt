-- ===== src/BoardCds/Client.antt =====
-- What a client of the critical data store sees, on pc-linux and on the boards: the calls of
-- CFE_PSP_WriteToCDS and CFE_PSP_ReadFromCDS behind an interface, and runs of them.
use mathlib.Core.Option.{some-injective}
use fs_nasa_cfs_psp.Base.{
  ℕ, ◌+◌, ◌^◌, ◌≤◌, ◌<◌, ◌≡◌, refl, sym, ap, ◌∙◌, inl, inr, Option, none, some, List, [], ◌∷◌,
  length,
}
use fs_nasa_cfs_psp.Status.{Status, success, error}
use fs_nasa_cfs_psp.DirectMemory.{Memory}
use fs_nasa_cfs_psp.ReservedMemory.{write_to_cds, read_from_cds}
use fs_nasa_cfs_psp.ReservedMemory.Cds.{write_to_cds-Writes, read_from_cds-Reads}
use fs_nasa_cfs_psp.BoardMemory.{MemoryMap}
use fs_nasa_cfs_psp.BoardCds.{board_write_to_cds, board_read_from_cds}
use fs_nasa_cfs_psp.BoardCds.Window.{length-window}
use fs_nasa_cfs_psp.BoardCds.Refine.{
  cds_bytes, board_write_to_cds-Refines, board_read_from_cds-Refines,
}

-- A store: its state, the bytes of it, its two calls with a pointer that is not NULL, and the law
-- that they act on the bytes as pc-linux's calls do, where nothing wraps or leaves the caller's
-- buffer.
pub record CdsStore (S : Type 0) : Type 0 where
  pub bytes : S → List ℕ
  pub write : S → List ℕ → ℕ → ℕ → Option (Status × S)
  pub read : S → List ℕ → ℕ → ℕ → Option (Status × Option (List ℕ))
  pub write_bytes :
      (s : S) (source : List ℕ) (offset n : ℕ)
      → offset + n < 2 ^ 32
      → n ≤ length source
      → (status : Status) × (t : S) × (write s source offset n ≡ some (status, t))
        × (write_to_cds (length (bytes s)) (bytes s) (some source) offset n
            ≡ some (status, bytes t))
  pub read_bytes :
      (s : S) (buffer : List ℕ) (offset n : ℕ)
      → offset + n < 2 ^ 32
      → n ≤ length buffer
      → read s buffer offset n ≡ read_from_cds (length (bytes s)) (bytes s) (some buffer) offset n

pub linux_write_bytes :
    (block source : List ℕ) (offset n : ℕ)
    → offset + n < 2 ^ 32
    → n ≤ length source
    → (status : Status) × (t : List ℕ) × (write_to_cds (length block) block (some source) offset n
        ≡ some (status, t))
      × (write_to_cds (length block) block (some source) offset n ≡ some (status, t))
linux_write_bytes block source offset n small hs =
    elim (write_to_cds-Writes block source offset n small hs) [
      | inl (within, p) ↦ (success, p.0, p.1, p.1)
      | inr (out, e) ↦ (error, block, e, e)
    ]

-- A segment of pc-linux.
unfoldable pub linux_store : CdsStore (List ℕ)
linux_store = record {
  bytes = λ block. block;
  write = λ block source offset n. write_to_cds (length block) block (some source) offset n;
  read = λ block buffer offset n. read_from_cds (length block) block (some buffer) offset n;
  write_bytes = linux_write_bytes;
  read_bytes = λ block buffer offset n small hb. refl;
}

-- The memory of a board with the map of its areas.
unfoldable pub board_store : MemoryMap → CdsStore Memory
board_store r = record {
  bytes = cds_bytes r;
  write = λ m source offset n. board_write_to_cds r m (some source) offset n;
  read = λ m buffer offset n. board_read_from_cds r m (some buffer) offset n;
  write_bytes = λ m source offset n small hs.
      let long = length-window m r.cds_memory.block_ptr r.cds_memory.block_size in
      let p = board_write_to_cds-Refines r m source offset n small hs in
      (p.0, p.1, p.2, ap (λ k. write_to_cds k (cds_bytes r m) (some source) offset n) long ∙ p.3);
  read_bytes = λ m buffer offset n small hb.
      let long = length-window m r.cds_memory.block_ptr r.cds_memory.block_size in
      board_read_from_cds-Refines r m buffer offset n small hb
      ∙ ap (λ k. read_from_cds k (cds_bytes r m) (some buffer) offset n) (sym long);
}

-- A call, with the caller's buffer, the offset and the count.
pub data Request : Type 0 where
  write_request : List ℕ → ℕ → ℕ → Request
  read_request : List ℕ → ℕ → ℕ → Request

pub data Answer : Type 0 where
  written : Status → Answer
  obtained : Status → Option (List ℕ) → Answer

-- Nothing wraps, and the buffer is large enough.
abbrev pub IsSound : Request → Type 0
IsSound (write_request source offset n) = (offset + n < 2 ^ 32) × (n ≤ length source)
IsSound (read_request buffer offset n) = (offset + n < 2 ^ 32) × (n ≤ length buffer)

abbrev pub AreSound : List Request → Type 0
AreSound [] = Unit
AreSound (q ∷ qs) = IsSound q × AreSound qs

abbrev after_answer : {S : Type 0} → Answer → Option (List Answer × S) → Option (List Answer × S)
after_answer a none = none
after_answer a (some (rest, s)) = some (a ∷ rest, s)

-- The answers to a list of calls, and the state after them.
unfoldable pub serve : {S : Type 0} → CdsStore S → List Request → S → Option (List Answer × S)
serve c [] s = some ([], s)
serve c (write_request source offset n ∷ qs) s = elim (c.write s source offset n) [
  | none ↦ none
  | some (status, t) ↦ after_answer (written status) (serve c qs t)
]
serve c (read_request buffer offset n ∷ qs) s = elim (c.read s buffer offset n) [
  | none ↦ none
  | some (status, b) ↦ after_answer (obtained status b) (serve c qs s)
]

reads_answer :
    (block buffer : List ℕ) (offset n : ℕ)
    → offset + n < 2 ^ 32
    → n ≤ length buffer
    → (status : Status) × (b : Option (List ℕ)) × (read_from_cds
          (length block)
          block
          (some buffer)
          offset
          n
        ≡ some (status, b))
reads_answer block buffer offset n small hb =
    elim (read_from_cds-Reads block buffer offset n small hb) [
      | inl (within, e) ↦ (success, _, e)
      | inr (out, e) ↦ (error, _, e)
    ]

module _ {S : Type 0} (c : CdsStore S) (qs : List Request) (s : S) {answers : List Answer}
    {u : S} where
  serve_write :
      (source : List ℕ) (offset n : ℕ) {status : Status} {t : S}
      → c.write s source offset n ≡ some (status, t)
      → serve c qs t ≡ some (answers, u)
      → serve c (write_request source offset n ∷ qs) s ≡ some (written status ∷ answers, u)
  unfolding serve
  serve_write source offset n e r = rw (e, serve) (ap (after_answer (written _)) r)

  serve_read :
      (buffer : List ℕ) (offset n : ℕ) {status : Status} {b : Option (List ℕ)}
      → c.read s buffer offset n ≡ some (status, b)
      → serve c qs s ≡ some (answers, u)
      → serve c (read_request buffer offset n ∷ qs) s ≡ some (obtained status b ∷ answers, u)
  unfolding serve
  serve_read buffer offset n e r = rw (e, serve) (ap (after_answer (obtained _ _)) r)

-- Two stores with the same bytes give the same answers and end with the same bytes.
pub serve_same :
    {S T : Type 0} (c : CdsStore S) (d : CdsStore T) (qs : List Request) (s : S) (t : T)
    → c.bytes s ≡ d.bytes t
    → AreSound qs
    → (answers : List Answer) × (u : S) × (v : T) × (serve c qs s ≡ some (answers, u))
      × (serve d qs t ≡ some (answers, v))
      × (c.bytes u ≡ d.bytes v)
unfolding serve
serve_same c d [] s t same sound = ([], s, t, refl, refl, same)
serve_same c d (write_request source offset n ∷ qs) s t same sound =
    let (status, s', e, w) = c.write_bytes s source offset n sound.0.0 sound.0.1 in
    let (status', t', e', w') = d.write_bytes t source offset n sound.0.0 sound.0.1 in
    let both : some (status, c.bytes s') ≡ some (status', d.bytes t') =
      sym w ∙ ap (λ (b : List ℕ). write_to_cds (length b) b (some source) offset n) same ∙ w' in
    let pair = some-injective (status, c.bytes s') (status', d.bytes t') both in
    let (answers, u, v, r, r', last) = serve_same c d qs s' t' (ap (λ p. p.1) pair) sound.1 in
    (
      written status ∷ answers,
      u,
      v,
      serve_write c qs s source offset n e r,
      serve_write d qs t source offset n (rw (ap (λ p. p.0) pair) e') r',
      last,
    )
serve_same c d (read_request buffer offset n ∷ qs) s t same sound =
    let (status, b, e) = reads_answer (c.bytes s) buffer offset n sound.0.0 sound.0.1 in
    let here : c.read s buffer offset n ≡ some (status, b) =
      c.read_bytes s buffer offset n sound.0.0 sound.0.1 ∙ e in
    let there : d.read t buffer offset n ≡ some (status, b) =
      d.read_bytes t buffer offset n sound.0.0 sound.0.1
      ∙ ap (λ (b : List ℕ). read_from_cds (length b) b (some buffer) offset n) (sym same)
      ∙ e in
    let (answers, u, v, r, r', last) = serve_same c d qs s t same sound.1 in
    (
      obtained status b ∷ answers,
      u,
      v,
      serve_read c qs s buffer offset n here r,
      serve_read d qs t buffer offset n there r',
      last,
    )

-- The memory of a board and a segment of pc-linux with the same bytes, given the same calls, where
-- nothing wraps and every buffer is large enough: all calls end, the two give the same answers, and
-- their bytes are the same at the end.
pub serve-board_store-linux_store :
    (r : MemoryMap) (qs : List Request) (m : Memory) (block : List ℕ)
    → cds_bytes r m ≡ block
    → AreSound qs
    → (answers : List Answer) × (u : Memory) × (v : List ℕ) × (serve (board_store r) qs m
        ≡ some (answers, u))
      × (serve linux_store qs block ≡ some (answers, v))
      × (cds_bytes r u ≡ v)
unfolding board_store linux_store
serve-board_store-linux_store r qs m block same sound =
    serve_same (board_store r) linux_store qs m block same sound
